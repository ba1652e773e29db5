-- ===== src/Frame.antt =====
-- src/protocol/FrameCodec.cpp and include/uwb/protocol/FrameCodec.hpp: the MAC header of an SP0
-- frame and the payloads of the Pre-Poll and Final-Data messages. An encoder returns its result
-- with the output buffer as it leaves it.
pub mod Layout
pub mod RoundTrip
pub mod Canonical
pub mod Reports
use aliro_ccc_core.Base.{
  ℕ, zero, suc, ◌+◌, ◌*◌, Bool, ◌||◌, not, List, [], ◌∷◌, ltb, ◌==◌, if◌then◌else◌, length, drop,
  stores,
}
use aliro_ccc_core.Base.Words.{Bytes, u8, byte_at, le16, le32, read_le16, read_le32, of_le24, ◌>>>◌}
use aliro_ccc_core.Core.{Result, ok, err, buffer_overflow, malformed_frame}

abbrev pub mac_header_length : ℕ
mac_header_length = 23

abbrev pub pre_poll_payload_length : ℕ
pre_poll_payload_length = 13

abbrev pub final_data_header_length : ℕ
final_data_header_length = 18

abbrev pub responder_record_length : ℕ
responder_record_length = 7

abbrev pub max_responders_supported : ℕ
max_responders_supported = 10

abbrev pub frame_control_field : ℕ
frame_control_field = 0x2b49

abbrev pub security_control_field : ℕ
security_control_field = 0x16

abbrev pub key_index_field : ℕ
key_index_field = 0xaa

abbrev pub vendor_ie_header : ℕ
vendor_ie_header = 0x0005

abbrev pub vendor_oui_aliro : ℕ
vendor_oui_aliro = 0x4a191b

abbrev pub header_termination2_ie : ℕ
header_termination2_ie = 0x3f80

-- `MessageIdentifier` is cast from any byte, so it is a byte here.
abbrev pub pre_poll_message : ℕ
pre_poll_message = 0x01

abbrev pub final_data_message : ℕ
final_data_message = 0x02

pub record MacHeader : Type 0 where
  pub destination_short_address : ℕ
  pub frame_counter : ℕ
  pub key_source : Bytes
  pub message_id : ℕ
  pub payload_length : ℕ

pub record PrePollPayload : Type 0 where
  pub session_id : ℕ
  pub poll_sts_index : ℕ
  pub ranging_block : ℕ
  pub hop_flag : ℕ
  pub round_index : ℕ

pub record ResponderTimestampReport : Type 0 where
  pub responder_index : ℕ
  pub poll_to_response_delta_dtu : ℕ
  pub timestamp_uncertainty : ℕ
  pub ranging_status : ℕ

pub record FinalDataPayload : Type 0 where
  pub session_id : ℕ
  pub ranging_block : ℕ
  pub hop_flag : ℕ
  pub round_index : ℕ
  pub final_sts_index : ℕ
  pub poll_to_final_tx_delta_dtu : ℕ
  pub responder_reports : List ResponderTimestampReport

-- The three bytes at `i`, little-endian, are the vendor's OUI.
is_valid_vendor_oui : Bytes → ℕ → Bool
is_valid_vendor_oui bs i =
    of_le24 (byte_at bs i) (byte_at bs (i + 1)) (byte_at bs (i + 2)) == vendor_oui_aliro

-- A fixed field of the header has another value than it must have.
wrong_fields : Bytes → Bool
unfolding is_valid_vendor_oui
wrong_fields frame =
    not (read_le16 frame 0 == frame_control_field)
    || not (byte_at frame 4 == security_control_field)
    || not (byte_at frame 13 == key_index_field)
    || not (read_le16 frame 14 == vendor_ie_header)
    || not (is_valid_vendor_oui frame 16)
    || not (read_le16 frame 21 == header_termination2_ie)

unfoldable pub decode_header : Bytes → Result MacHeader
unfolding wrong_fields
decode_header frame =
    if ltb (length frame) mac_header_length
    then err malformed_frame
    else if wrong_fields frame
    then err malformed_frame
    else ok (record {
      destination_short_address = read_le16 frame 2;
      frame_counter = read_le32 frame 5;
      key_source = byte_at frame 12 ∷ byte_at frame 11 ∷ byte_at frame 10 ∷ byte_at frame 9 ∷ [];
      message_id = byte_at frame 19;
      payload_length = byte_at frame 20;
    })

-- The stores of `encodeHeader`, in its order.
header_stores : MacHeader → List (ℕ × Bytes)
header_stores h =
    (0, le16 frame_control_field)
    ∷ (2, le16 h.destination_short_address)
    ∷ (4, security_control_field ∷ [])
    ∷ (5, le32 h.frame_counter)
    ∷ (9, byte_at h.key_source 3 ∷ [])
    ∷ (10, byte_at h.key_source 2 ∷ [])
    ∷ (11, byte_at h.key_source 1 ∷ [])
    ∷ (12, byte_at h.key_source 0 ∷ [])
    ∷ (13, key_index_field ∷ [])
    ∷ (14, le16 vendor_ie_header)
    ∷ (16, u8 vendor_oui_aliro ∷ [])
    ∷ (17, u8 (vendor_oui_aliro >>> 8) ∷ [])
    ∷ (18, u8 (vendor_oui_aliro >>> 16) ∷ [])
    ∷ (19, u8 h.message_id ∷ [])
    ∷ (20, u8 h.payload_length ∷ [])
    ∷ (21, le16 header_termination2_ie)
    ∷ []

unfoldable pub encode_header : MacHeader → Bytes → Result ℕ × Bytes
unfolding header_stores
encode_header h output =
    if ltb (length output) mac_header_length
    then (err buffer_overflow, output)
    else (ok mac_header_length, stores (header_stores h) output)

unfoldable pub decode_pre_poll : Bytes → Result PrePollPayload
decode_pre_poll payload =
    if ltb (length payload) pre_poll_payload_length
    then err malformed_frame
    else ok (record {
      session_id = read_le32 payload 0;
      poll_sts_index = read_le32 payload 4;
      ranging_block = read_le16 payload 8;
      hop_flag = byte_at payload 10;
      round_index = read_le16 payload 11;
    })

pre_poll_stores : PrePollPayload → List (ℕ × Bytes)
pre_poll_stores p =
    (0, le32 p.session_id)
    ∷ (4, le32 p.poll_sts_index)
    ∷ (8, le16 p.ranging_block)
    ∷ (10, u8 p.hop_flag ∷ [])
    ∷ (11, le16 p.round_index)
    ∷ []

unfoldable pub encode_pre_poll : PrePollPayload → Bytes → Result ℕ × Bytes
unfolding pre_poll_stores
encode_pre_poll p output =
    if ltb (length output) pre_poll_payload_length
    then (err buffer_overflow, output)
    else (ok pre_poll_payload_length, stores (pre_poll_stores p) output)

-- The record that starts at the front of `r`.
decode_report : Bytes → ResponderTimestampReport
decode_report r = record {
  responder_index = byte_at r 0;
  poll_to_response_delta_dtu = read_le32 r 1;
  timestamp_uncertainty = byte_at r 5;
  ranging_status = byte_at r 6;
}

-- The loop over the records; `r` starts at record `i` when `n - i` are left.
unfoldable pub decode_reports : ℕ → Bytes → List ResponderTimestampReport
unfolding decode_report
decode_reports zero r = []
decode_reports (suc left) r = decode_report r ∷ decode_reports left (drop responder_record_length r)

unfoldable pub decode_final_data : Bytes → Result FinalDataPayload
unfolding decode_reports
decode_final_data payload =
    if ltb (length payload) final_data_header_length
    then err malformed_frame
    else if ltb max_responders_supported (byte_at payload 17)
    then err malformed_frame
    else if ltb (length payload)
        (final_data_header_length + byte_at payload 17 * responder_record_length)
    then err malformed_frame
    else ok (record {
      session_id = read_le32 payload 0;
      ranging_block = read_le16 payload 4;
      hop_flag = byte_at payload 6;
      round_index = read_le16 payload 7;
      final_sts_index = read_le32 payload 9;
      poll_to_final_tx_delta_dtu = read_le32 payload 13;
      responder_reports =
          decode_reports (byte_at payload 17) (drop final_data_header_length payload);
    })

-- The stores for the records, the first of them at `i`.
report_stores : ℕ → List ResponderTimestampReport → List (ℕ × Bytes)
report_stores i [] = []
report_stores i (r ∷ rs) =
    (i, u8 r.responder_index ∷ [])
    ∷ (i + 1, le32 r.poll_to_response_delta_dtu)
    ∷ (i + 5, u8 r.timestamp_uncertainty ∷ [])
    ∷ (i + 6, u8 r.ranging_status ∷ [])
    ∷ report_stores (i + responder_record_length) rs

final_data_stores : FinalDataPayload → List (ℕ × Bytes)
unfolding report_stores
final_data_stores f =
    (0, le32 f.session_id)
    ∷ (4, le16 f.ranging_block)
    ∷ (6, u8 f.hop_flag ∷ [])
    ∷ (7, le16 f.round_index)
    ∷ (9, le32 f.final_sts_index)
    ∷ (13, le32 f.poll_to_final_tx_delta_dtu)
    ∷ (17, u8 (length f.responder_reports) ∷ [])
    ∷ report_stores final_data_header_length f.responder_reports

unfoldable pub encode_final_data : FinalDataPayload → Bytes → Result ℕ × Bytes
unfolding final_data_stores
encode_final_data f output =
    let total = final_data_header_length + length f.responder_reports * responder_record_length in
    if ltb (length output) total || ltb max_responders_supported (length f.responder_reports)
    then (err buffer_overflow, output)
    else (ok total, stores (final_data_stores f) output)
