-- ===== src/Setup/Codec/Messages.antt =====
-- What the messages that the codec builds say, when they are read back.
use aliro_ccc_core.Base.{
  ℕ, ◌*◌, ◌/◌, ◌<◌, ◌^◌, ◌≡◌, refl, ap, ◌∙◌, arith, Bool, List, [], ◌∷◌, ◌++◌, append_assoc, length,
  length-append, if◌then◌else◌,
}
use aliro_ccc_core.Base.Words.{Bytes, u8, be32}
use aliro_ccc_core.Core.{ok, ◌>>=◌}
use aliro_ccc_core.Setup.{
  uwb_ranging_service, notification, ranging_setup_m1, ranging_setup_m3, suspend_request,
  suspend_response, resume_request, ranging_notification, AttributeTag, config_id,
  pulse_shape_combo, session_id, channel_bitmask, ran_multiplier, sync_code_index_bitmask,
  hopping_config_bitmask, chaps_per_slot, num_responders, slots_per_round, mac_mode, status,
  unlisted, tag_code, RangingSessionParameters, DeviceCapabilities,
}
use aliro_ccc_core.Setup.Tlv.{
  TlvElement, parse_tlv_stream, new_writer, add_u8, add_u32, add_bytes, add_u16_array, finalize,
  concat_be16,
}
use aliro_ccc_core.Setup.Tlv.Stream.{image}
use aliro_ccc_core.Setup.Tlv.Writer.{parse-finalize, length-concat_be16}
use aliro_ccc_core.Setup.Codec.{
  build_m1, build_m3, build_suspend_resume_request, build_suspend_response, build_resume_request,
  build_ranging_notification,
}

abbrev pub element : AttributeTag → Bytes → TlvElement
element tag value = record { tag = tag_code tag; value = value }

abbrev m1_elements : ℕ → DeviceCapabilities → List TlvElement
m1_elements session caps =
    element config_id (concat_be16 caps.supported_config_ids)
    ∷ element pulse_shape_combo caps.supported_pulse_shapes
    ∷ element channel_bitmask (caps.channel_bitmask ∷ [])
    ∷ element session_id (be32 session)
    ∷ []

u8_fits : (n : ℕ) → n < 256 → u8 n ≡ n
u8_fits n h = omega arith

m1-layout :
    (session : ℕ) (caps : DeviceCapabilities)
    → length caps.supported_config_ids < 128
    → length caps.supported_pulse_shapes < 256
    → add_u32 session_id session (
        add_u8 channel_bitmask caps.channel_bitmask (
          add_bytes pulse_shape_combo caps.supported_pulse_shapes (
            add_u16_array config_id caps.supported_config_ids
              (new_writer uwb_ranging_service ranging_setup_m1))))
      ≡ new_writer uwb_ranging_service ranging_setup_m1 ++ image (m1_elements session caps)
unfolding image
m1-layout session caps h1 h2 =
    rw
      (
        u8_fits (length caps.supported_config_ids * 2) (omega arith),
        u8_fits (length caps.supported_pulse_shapes) h2,
        length-concat_be16 caps.supported_config_ids,
      )
      (simp append_assoc)

m1-size :
    (session : ℕ) (caps : DeviceCapabilities)
    → length caps.supported_config_ids < 128
    → length caps.supported_pulse_shapes < 256
    → length (image (m1_elements session caps)) < 2 ^ 16
unfolding image
m1-size session caps h1 h2 =
    let tail = image (
      element channel_bitmask (caps.channel_bitmask ∷ [])
      ∷ element session_id (be32 session)
      ∷ []) in
    omega (
      arith,
      length-concat_be16 caps.supported_config_ids,
      length-append caps.supported_pulse_shapes tail,
      length-append (concat_be16 caps.supported_config_ids) (
          image (
            element pulse_shape_combo caps.supported_pulse_shapes
            ∷ element channel_bitmask (caps.channel_bitmask ∷ [])
            ∷ element session_id (be32 session)
            ∷ [])),
    )

-- With at most 127 configurations and 255 pulse shapes, so that no length byte is cut off, M1 reads
-- back as the capabilities and the session, each in its element.
pub parse-build_m1 :
    (session : ℕ) (caps : DeviceCapabilities)
    → length caps.supported_config_ids < 128
    → length caps.supported_pulse_shapes < 256
    → (build_m1 session caps >>= parse_tlv_stream)
      ≡ ok (
          element config_id (concat_be16 caps.supported_config_ids)
          ∷ element pulse_shape_combo caps.supported_pulse_shapes
          ∷ element channel_bitmask (caps.channel_bitmask ∷ [])
          ∷ element session_id (be32 session)
          ∷ [])
unfolding build_m1
parse-build_m1 session caps h1 h2 =
    ap (λ t. parse_tlv_stream (finalize t)) (m1-layout session caps h1 h2)
    ∙ parse-finalize uwb_ranging_service ranging_setup_m1 (m1_elements session caps)
        (image (m1_elements session caps)) refl (m1-size session caps h1 h2)

-- M3 reads back as the negotiated multiplier, chaps, responders, slots, preamble codes, hopping
-- mode and MAC mode, each in its element.
pub parse-build_m3 :
    (p : RangingSessionParameters) (caps : DeviceCapabilities)
    → (build_m3 p caps >>= parse_tlv_stream)
      ≡ ok (
          element ran_multiplier (u8 (p.duration_ms / 96) ∷ [])
          ∷ element chaps_per_slot (u8 (p.slot_duration_rstu / 400) ∷ [])
          ∷ element num_responders (caps.responder_count ∷ [])
          ∷ element slots_per_round (p.slots_per_round ∷ [])
          ∷ element sync_code_index_bitmask (be32 caps.sync_code_bitmask)
          ∷ element hopping_config_bitmask (p.hopping_config_bitmask ∷ [])
          ∷ element mac_mode (caps.mac_mode ∷ [])
          ∷ [])
unfolding build_m3 image
parse-build_m3 p caps =
    parse-finalize uwb_ranging_service ranging_setup_m3
      (element ran_multiplier (u8 (p.duration_ms / 96) ∷ [])
        ∷ element chaps_per_slot (u8 (p.slot_duration_rstu / 400) ∷ [])
        ∷ element num_responders (caps.responder_count ∷ [])
        ∷ element slots_per_round (p.slots_per_round ∷ [])
        ∷ element sync_code_index_bitmask (be32 caps.sync_code_bitmask)
        ∷ element hopping_config_bitmask (p.hopping_config_bitmask ∷ [])
        ∷ element mac_mode (caps.mac_mode ∷ [])
        ∷ [])
      _ refl (omega arith)

-- A suspend or resume request reads back as the session, the response as the status, and the
-- notification as the empty element of its attribute.
pub parse-build_requests :
    (session attribute_id : ℕ) (is_suspend accept : Bool)
    → ((build_suspend_resume_request session is_suspend >>= parse_tlv_stream)
        ≡ ok (element session_id (be32 session) ∷ []))
      × ((build_resume_request session >>= parse_tlv_stream)
          ≡ ok (element session_id (be32 session) ∷ []))
      × ((build_suspend_response accept >>= parse_tlv_stream)
          ≡ ok (element status ((if accept then 0 else 1) ∷ []) ∷ []))
      × ((build_ranging_notification attribute_id >>= parse_tlv_stream)
          ≡ ok (element (unlisted attribute_id) [] ∷ []))
unfolding build_suspend_resume_request build_resume_request build_suspend_response
    build_ranging_notification image
parse-build_requests session attribute_id is_suspend accept = (
  parse-finalize uwb_ranging_service (if is_suspend then suspend_request else resume_request)
      (element session_id (be32 session) ∷ []) _ refl (omega arith),
  parse-finalize uwb_ranging_service resume_request (element session_id (be32 session) ∷ []) _ refl
      (omega arith),
  parse-finalize uwb_ranging_service suspend_response
      (element status ((if accept then 0 else 1) ∷ []) ∷ []) _ refl (omega arith),
  parse-finalize notification ranging_notification (element (unlisted attribute_id) [] ∷ []) _ refl
      (omega arith),
)
