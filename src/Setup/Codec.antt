-- ===== src/Setup/Codec.antt =====
-- src/protocol/SetupMessageCodec.cpp, `SetupMessageCodec`: the messages. A parser's out parameter
-- keeps what was written to it before an error, so a parser returns it beside the result.
pub mod Messages
pub mod Loop
pub mod Offers
pub mod Negotiation
pub mod Resume
use aliro_ccc_core.Base.{
  ℕ, zero, suc, ◌+◌, ◌*◌, ◌/◌, ◌<◌, Bool, true, false, not, ◌||◌, List, [], ◌∷◌, ltb, ◌==◌,
  if◌then◌else◌, length, bit_and, bit_or,
}
use aliro_ccc_core.Base.Words.{Bytes, u8, u16, u32, ◌>>>◌, ◌<<<◌, byte_at, read_be16, read_be32}
use aliro_ccc_core.Core.{
  Result, ok, err, malformed_frame, invalid_parameter, UwbChannel, channel5, channel9, HoppingMode,
  disabled, continuous_default, adaptive_default,
}
use aliro_ccc_core.Setup.{
  ProtocolCategory, uwb_ranging_service, notification, MessageType, ranging_setup_m1,
  ranging_setup_m3, suspend_request, suspend_response, resume_request, ranging_notification,
  AttributeTag, config_id, pulse_shape_combo, session_id, channel_bitmask, ran_multiplier,
  slot_bitmask, sync_code_index_bitmask, sync_code_index, hopping_config_bitmask, chaps_per_slot,
  num_responders, slots_per_round, sts_index0, uwb_time0, hop_mode_key, mac_mode, vendor_specific,
  status, unlisted, tag_code, tag_of, RangingSessionParameters, DeviceCapabilities,
}
use aliro_ccc_core.Setup.Tlv.{
  new_writer, add_u8, add_u32, add_bytes, add_u16_array, finalize, TlvElement, parse_tlv_stream,
  read_be64,
}

-- A `Result<void>` and the out parameter.
abbrev pub Outcome : Type 0 → Type 0
Outcome P = Result (Unit {0}) × P

abbrev pub after : {P : Type 0} → Outcome P → (P → Outcome P) → Outcome P
after (ok u, p) k = k p
after (err e, p) k = (err e, p)

-- The loop over the elements, which the first error ends.
unfoldable pub for_each :
    {P : Type 0} → (TlvElement → P → Outcome P) → List TlvElement → P → Outcome P
for_each handle [] p = (ok tt, p)
for_each handle (elem ∷ rest) p = after (handle elem p) (for_each handle rest)

-- `if (elem.value.size() != n) return MalformedFrame;`
abbrev pub sized : {P : Type 0} → ℕ → Bytes → P → Outcome P → Outcome P
sized n value p next = if length value == n then next else (err malformed_frame, p)

unfoldable pub build_m1 : ℕ → DeviceCapabilities → Result Bytes
build_m1 session caps = ok (
    finalize (
      add_u32 session_id session (
        add_u8 channel_bitmask caps.channel_bitmask (
          add_bytes pulse_shape_combo caps.supported_pulse_shapes (
            add_u16_array config_id caps.supported_config_ids
              (new_writer uwb_ranging_service ranging_setup_m1))))))

-- Channel 9 is preferred.
unfoldable pub select_channel : ℕ → RangingSessionParameters → Outcome RangingSessionParameters
select_channel common p =
    if not (bit_and common 2 == 0)
    then (ok tt, record p { channel = channel9 })
    else if not (bit_and common 1 == 0)
    then (ok tt, record p { channel = channel5 })
    else (err invalid_parameter, p)

-- `(common >> idx) & 0x01`.
abbrev pub has_bit : ℕ → ℕ → Bool
has_bit common idx = bit_and (common >>> idx) 1 == 1

-- The chaps of the lowest bit that is set; 3 without one among the seven.
unfoldable pub select_chaps : ℕ → ℕ
select_chaps common =
    if has_bit common 0
    then 3
    else if has_bit common 1
    then 4
    else if has_bit common 2
    then 6
    else if has_bit common 3
    then 8
    else if has_bit common 4
    then 9
    else if has_bit common 5
    then 12
    else if has_bit common 6
    then 24
    else 3

abbrev pub hop_ccc_to_fira : ℕ → ℕ
hop_ccc_to_fira ccc = ccc >>> 3

abbrev pub hop_fira_to_ccc : ℕ → ℕ
hop_fira_to_ccc fira = u8 (fira <<< 3)

abbrev pub hop_combo_continuous_default : ℕ
hop_combo_continuous_default = 10

abbrev pub hop_combo_adaptive_default : ℕ
hop_combo_adaptive_default = 6

abbrev pub hop_combo_no_hopping : ℕ
hop_combo_no_hopping = 16

abbrev pub includes : ℕ → ℕ → Bool
includes common combo = bit_and common combo == combo

unfoldable pub select_hopping : ℕ → RangingSessionParameters → Outcome RangingSessionParameters
select_hopping common p =
    if includes common hop_combo_no_hopping
    then (
      ok tt,
      record p {
        hopping_mode = disabled;
        hopping_config_bitmask = hop_fira_to_ccc hop_combo_no_hopping;
      },
    )
    else if includes common hop_combo_continuous_default
    then (
      ok tt,
      record p {
        hopping_mode = continuous_default;
        hopping_config_bitmask = hop_fira_to_ccc hop_combo_continuous_default;
      },
    )
    else if includes common hop_combo_adaptive_default
    then (
      ok tt,
      record p {
        hopping_mode = adaptive_default;
        hopping_config_bitmask = hop_fira_to_ccc hop_combo_adaptive_default;
      },
    )
    else (err invalid_parameter, p)

abbrev pub max : ℕ → ℕ → ℕ
max a b = if ltb a b then b else a

-- The cases of the switch in `parseM2`.
unfoldable pub handle_m2 :
    ℕ
    → DeviceCapabilities
    → AttributeTag
    → Bytes
    → RangingSessionParameters
    → Outcome RangingSessionParameters
unfolding select_channel select_chaps select_hopping
handle_m2 expected caps config_id value p =
    sized 2 value p (ok tt, record p { uwb_config_id = read_be16 value 0 })
handle_m2 expected caps pulse_shape_combo value p =
    sized 1 value p (ok tt, record p { pulse_shape_combo = byte_at value 0 })
handle_m2 expected caps session_id value p = sized 4 value p (
    if read_be32 value 0 == expected
    then (ok tt, record p { session_id = read_be32 value 0 })
    else (err invalid_parameter, p))
handle_m2 expected caps channel_bitmask value p =
    sized 1 value p (select_channel (bit_and (byte_at value 0) caps.channel_bitmask) p)
handle_m2 expected caps ran_multiplier value p =
    sized 1 value p
      (ok tt, record p { duration_ms = 96 * max (byte_at value 0) caps.min_ran_multiplier })
handle_m2 expected caps slot_bitmask value p =
    let common = bit_and (byte_at value 0) caps.slot_bitmask in
    sized 1 value p (
      if common == 0
      then (err invalid_parameter, p)
      else (ok tt, record p { slot_duration_rstu = u16 (400 * select_chaps common) }))
handle_m2 expected caps hopping_config_bitmask value p =
    sized 1 value p
      (select_hopping (bit_and (hop_ccc_to_fira (byte_at value 0)) caps.hopping_config_bitmask) p)
handle_m2 expected caps _ value p = (ok tt, p)

-- A message that does not parse leaves the out parameter alone.
abbrev pub with_elements :
    {P : Type 0} → Result (List TlvElement) → P → (List TlvElement → Outcome P) → Outcome P
with_elements (ok elements) p k = k elements
with_elements (err e) p k = (err e, p)

unfoldable pub parse_m2 :
    Bytes → ℕ → DeviceCapabilities → RangingSessionParameters → Outcome RangingSessionParameters
unfolding for_each handle_m2 tag_of
parse_m2 payload expected caps p = with_elements (parse_tlv_stream payload) p λ elements.
    for_each (λ elem. handle_m2 expected caps (tag_of elem.tag) elem.value) elements
      (record p { slots_per_round = 12 })

unfoldable pub build_m3 : RangingSessionParameters → DeviceCapabilities → Result Bytes
build_m3 p caps = ok (
    finalize (
      add_u8 mac_mode caps.mac_mode (
        add_u8 hopping_config_bitmask p.hopping_config_bitmask (
          add_u32 sync_code_index_bitmask caps.sync_code_bitmask (
            add_u8 slots_per_round p.slots_per_round (
              add_u8 num_responders caps.responder_count (
                add_u8 chaps_per_slot (u8 (p.slot_duration_rstu / 400)) (
                  add_u8 ran_multiplier (u8 (p.duration_ms / 96))
                    (new_writer uwb_ranging_service ranging_setup_m3)))))))))

unfoldable pub handle_m4 :
    AttributeTag → Bytes → RangingSessionParameters → Outcome RangingSessionParameters
unfolding read_be64
handle_m4 sts_index0 value p = sized 4 value p (ok tt, record p { sts_index0 = read_be32 value 0 })
handle_m4 uwb_time0 value p =
    sized 8 value p (ok tt, record p { initiation_time_us = read_be64 value 0 })
handle_m4 hop_mode_key value p = sized 4 value p (ok tt, record p { hop_mode_key = value })
handle_m4 sync_code_index value p =
    sized 1 value p (ok tt, record p { sync_code_index = byte_at value 0 })
handle_m4 _ value p = (ok tt, p)

unfoldable pub parse_m4 : Bytes → RangingSessionParameters → Outcome RangingSessionParameters
unfolding for_each handle_m4 tag_of
parse_m4 payload p =
    with_elements (parse_tlv_stream payload) p
      (λ elements. for_each (λ elem. handle_m4 (tag_of elem.tag) elem.value) elements p)

unfoldable pub build_suspend_resume_request : ℕ → Bool → Result Bytes
build_suspend_resume_request session is_suspend = ok (
    finalize (
      add_u32 session_id session
        (new_writer uwb_ranging_service (if is_suspend then suspend_request else resume_request))))

unfoldable pub build_suspend_response : Bool → Result Bytes
build_suspend_response accept = ok (
    finalize
      (add_u8 status (if accept then 0 else 1) (new_writer uwb_ranging_service suspend_response)))

unfoldable pub build_resume_request : ℕ → Result Bytes
build_resume_request session =
    ok (finalize (add_u32 session_id session (new_writer uwb_ranging_service resume_request)))

-- The two out parameters of `parseResumeResponse` and its two flags.
pub record ResumeAnchor : Type 0 where
  pub sts_index0 : ℕ
  pub time0_us : ℕ
  pub have_sts : Bool
  pub have_time : Bool

unfoldable pub handle_resume : AttributeTag → Bytes → ResumeAnchor → Outcome ResumeAnchor
unfolding read_be64
handle_resume sts_index0 value r =
    sized 4 value r (ok tt, record r { sts_index0 = read_be32 value 0; have_sts = true })
handle_resume uwb_time0 value r =
    sized 8 value r (ok tt, record r { time0_us = read_be64 value 0; have_time = true })
handle_resume status value r =
    sized 1 value r (if byte_at value 0 == 0 then (ok tt, r) else (err invalid_parameter, r))
handle_resume _ value r = (ok tt, r)

-- The test behind the loop.
abbrev pub require_anchor : ResumeAnchor → Outcome ResumeAnchor
require_anchor r =
    if not r.have_sts || not r.have_time then (err malformed_frame, r) else (ok tt, r)

unfoldable pub parse_resume_response : Bytes → ℕ → ℕ → Outcome ResumeAnchor
unfolding for_each handle_resume tag_of
parse_resume_response payload out_sts_index0 out_time0_us =
    let start : ResumeAnchor = record {
      sts_index0 = out_sts_index0;
      time0_us = out_time0_us;
      have_sts = false;
      have_time = false;
    } in
    with_elements (parse_tlv_stream payload) start λ elements.
      after (for_each (λ elem. handle_resume (tag_of elem.tag) elem.value) elements start)
        require_anchor

unfoldable pub build_ranging_notification : ℕ → Result Bytes
build_ranging_notification attribute_id =
    ok (
      finalize
        (add_bytes (unlisted attribute_id) [] (new_writer notification ranging_notification)))
