-- ===== src/Frame/Reports.antt =====
-- The Final-Data payload: its round trip, and what a payload that is accepted must hold.
use aliro_ccc_core.Base.{
  ℕ, zero, suc, ◌+◌, ◌*◌, ◌^◌, ◌≤◌, ◌<◌, ◌≡◌, refl, ap, List, [], ◌∷◌, ◌++◌, arith, length, drop,
  concat, All, length-append,
}
use aliro_ccc_core.Base.Words.{Bytes, IsByte, byte_at, of_le16_bytes, of_le32_bytes}
use aliro_ccc_core.Core.{ok}
use aliro_ccc_core.Frame.{
  ResponderTimestampReport, FinalDataPayload, decode_reports, decode_final_data, encode_final_data,
}
use aliro_ccc_core.Frame.Layout.{
  report_segments, final_data_segments, length-report_segments, encode_final_data_image,
}

pub record IsReport (r : ResponderTimestampReport) : Type 0 where
  pub index : IsByte r.responder_index
  pub delta : r.poll_to_response_delta_dtu < 2 ^ 32
  pub uncertainty : IsByte r.timestamp_uncertainty
  pub status : IsByte r.ranging_status

pub record IsFinalDataPayload (f : FinalDataPayload) : Type 0 where
  pub session : f.session_id < 2 ^ 32
  pub block : f.ranging_block < 2 ^ 16
  pub hop : IsByte f.hop_flag
  pub round : f.round_index < 2 ^ 16
  pub sts : f.final_sts_index < 2 ^ 32
  pub delta : f.poll_to_final_tx_delta_dtu < 2 ^ 32
  pub few : length f.responder_reports ≤ 10
  pub reports : All IsReport f.responder_reports

decode_reports_image :
    (rs : List ResponderTimestampReport) (rest : Bytes)
    → All IsReport rs
    → decode_reports (length rs) (concat (report_segments rs) ++ rest) ≡ rs
unfolding decode_reports report_segments
decode_reports_image [] rest h = refl
decode_reports_image (r ∷ rs) rest (v, h) =
    ground
      (arith, of_le32_bytes r.poll_to_response_delta_dtu v.delta, decode_reports_image rs rest h)

pub decode_final_data_image :
    (f : FinalDataPayload) (rest : Bytes)
    → IsFinalDataPayload f
    → decode_final_data (concat (final_data_segments f) ++ rest) ≡ ok f
unfolding decode_final_data final_data_segments
decode_final_data_image f rest v = ground (
  arith,
  of_le32_bytes f.session_id,
  of_le16_bytes f.ranging_block,
  of_le16_bytes f.round_index,
  of_le32_bytes f.final_sts_index,
  of_le32_bytes f.poll_to_final_tx_delta_dtu,
  decode_reports_image f.responder_reports rest v.reports,
  length-append (concat (report_segments f.responder_reports)) rest,
  length-report_segments f.responder_reports,
)

-- Decoding what `encode_final_data` wrote gives the payload, with all its records in order.
pub decode_final_data-encode_final_data :
    (f : FinalDataPayload) (output : Bytes)
    → IsFinalDataPayload f
    → 18 + length f.responder_reports * 7 ≤ length output
    → ((encode_final_data f output).0 ≡ ok (18 + length f.responder_reports * 7))
      × (decode_final_data (encode_final_data f output).1 ≡ ok f)
decode_final_data-encode_final_data f output v le =
    rw (encode_final_data_image f output v.few le) (refl, decode_final_data_image f _ v)

length-decode_reports : (n : ℕ) (bs : Bytes) → length (decode_reports n bs) ≡ n
unfolding decode_reports
length-decode_reports zero bs = refl
length-decode_reports (suc n) bs = ap suc (length-decode_reports n (drop 7 bs))

-- A payload that is accepted holds as many records as its count says, ten at most, and all of them
-- lie within the payload.
pub decode_final_data_bounds :
    (payload : Bytes) (f : FinalDataPayload)
    → decode_final_data payload ≡ ok f
    → (length f.responder_reports ≡ byte_at payload 17)
      × (length f.responder_reports ≤ 10)
      × (18 + length f.responder_reports * 7 ≤ length payload)
unfolding decode_final_data
decode_final_data_bounds payload f e =
    ground (arith, length-decode_reports (byte_at payload 17) (drop 18 payload))
