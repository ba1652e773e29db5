-- ===== src/Frame/Layout.antt =====
-- The bytes that the encoders of FrameCodec.cpp leave at the front of the output buffer.
use aliro_ccc_core.Base.{
  ℕ, ◌+◌, ◌*◌, ◌≤◌, ◌≡◌, refl, ap, ◌∙◌, List, [], ◌∷◌, ◌++◌, arith, length, drop, concat, adjacent,
  stores-adjacent, le→ltb,
}
use aliro_ccc_core.Base.Words.{Bytes, u8, byte_at, le16, le32, ◌>>>◌}
use aliro_ccc_core.Core.{ok}
use aliro_ccc_core.Frame.{
  MacHeader, PrePollPayload, ResponderTimestampReport, FinalDataPayload, mac_header_length,
  frame_control_field, security_control_field, key_index_field, vendor_ie_header, vendor_oui_aliro,
  header_termination2_ie, encode_header, pre_poll_payload_length, encode_pre_poll, report_stores,
  encode_final_data,
}

-- The segments of a header on the wire.
unfoldable pub header_segments : MacHeader → List Bytes
header_segments h =
    le16 frame_control_field
    ∷ le16 h.destination_short_address
    ∷ (security_control_field ∷ [])
    ∷ le32 h.frame_counter
    ∷ (byte_at h.key_source 3 ∷ [])
    ∷ (byte_at h.key_source 2 ∷ [])
    ∷ (byte_at h.key_source 1 ∷ [])
    ∷ (byte_at h.key_source 0 ∷ [])
    ∷ (key_index_field ∷ [])
    ∷ le16 vendor_ie_header
    ∷ (u8 vendor_oui_aliro ∷ [])
    ∷ (u8 (vendor_oui_aliro >>> 8) ∷ [])
    ∷ (u8 (vendor_oui_aliro >>> 16) ∷ [])
    ∷ (u8 h.message_id ∷ [])
    ∷ (u8 h.payload_length ∷ [])
    ∷ le16 header_termination2_ie
    ∷ []

pub encode_header_image :
    (h : MacHeader) (output : Bytes)
    → mac_header_length ≤ length output
    → encode_header h output ≡ (ok 23, concat (header_segments h) ++ drop 23 output)
unfolding encode_header header_segments
encode_header_image h output le =
    rw (le→ltb _ _ le)
      (ap (λ (t : Bytes). (ok 23, t)) (stores-adjacent (header_segments h) 0 [] output refl le))

unfoldable pub pre_poll_segments : PrePollPayload → List Bytes
pre_poll_segments p =
    le32 p.session_id
    ∷ le32 p.poll_sts_index
    ∷ le16 p.ranging_block
    ∷ (u8 p.hop_flag ∷ [])
    ∷ le16 p.round_index
    ∷ []

pub encode_pre_poll_image :
    (p : PrePollPayload) (output : Bytes)
    → pre_poll_payload_length ≤ length output
    → encode_pre_poll p output ≡ (ok 13, concat (pre_poll_segments p) ++ drop 13 output)
unfolding encode_pre_poll pre_poll_segments
encode_pre_poll_image p output le =
    rw (le→ltb _ _ le)
      (ap (λ (t : Bytes). (ok 13, t)) (stores-adjacent (pre_poll_segments p) 0 [] output refl le))

unfoldable pub report_segments : List ResponderTimestampReport → List Bytes
report_segments [] = []
report_segments (r ∷ rs) =
    (u8 r.responder_index ∷ [])
    ∷ le32 r.poll_to_response_delta_dtu
    ∷ (u8 r.timestamp_uncertainty ∷ [])
    ∷ (u8 r.ranging_status ∷ [])
    ∷ report_segments rs

unfoldable pub final_data_segments : FinalDataPayload → List Bytes
unfolding report_segments
final_data_segments f =
    le32 f.session_id
    ∷ le16 f.ranging_block
    ∷ (u8 f.hop_flag ∷ [])
    ∷ le16 f.round_index
    ∷ le32 f.final_sts_index
    ∷ le32 f.poll_to_final_tx_delta_dtu
    ∷ (u8 (length f.responder_reports) ∷ [])
    ∷ report_segments f.responder_reports

pub length-report_segments :
    (rs : List ResponderTimestampReport) → length (concat (report_segments rs)) ≡ length rs * 7
unfolding report_segments
length-report_segments [] = refl
length-report_segments (r ∷ rs) = omega (arith, length-report_segments rs)

report_stores-adjacent :
    (i : ℕ) (rs : List ResponderTimestampReport)
    → report_stores i rs ≡ adjacent i (report_segments rs)
unfolding report_stores report_segments
report_stores-adjacent i [] = refl
report_stores-adjacent i (r ∷ rs) = ground (arith, report_stores-adjacent (i + 1 + 4 + 1 + 1) rs)

pub encode_final_data_image :
    (f : FinalDataPayload) (output : Bytes)
    → length f.responder_reports ≤ 10
    → 18 + length f.responder_reports * 7 ≤ length output
    → encode_final_data f output ≡ (
      ok (18 + length f.responder_reports * 7),
      concat (final_data_segments f) ++ drop (18 + length f.responder_reports * 7) output,
    )
unfolding encode_final_data final_data_segments
encode_final_data_image f output few le =
    let n : ℕ = length f.responder_reports in
    let image : ℕ = 18 + n * 7 in
    rw (le→ltb (length output) image le, le→ltb 10 n few, report_stores-adjacent)
      (ap (λ (t : Bytes). (ok image, t))
        (stores-adjacent (final_data_segments f) 0 [] output refl
            (omega (arith, length-report_segments f.responder_reports))
          ∙ ap (λ (k : ℕ). concat (final_data_segments f) ++ drop k output)
              {x = length (concat (final_data_segments f))}
              (omega (arith, length-report_segments f.responder_reports))))
