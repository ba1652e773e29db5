-- ===== src/Session/FinalData/Genuine.antt =====
-- A genuine Final-Data is decoded and opened: the codec and the SP0 engine, one after the other.
use aliro_ccc_core.Base.{
  ◌+◌, ◌*◌, ◌≤◌, ◌≡◌, ap, ◌∙◌, arith, length, take, drop, replicate, concat, length-append,
  length-drop, take-length_append,
}
use aliro_ccc_core.Base.Words.{Bytes}
use aliro_ccc_core.Core.{ok}
use aliro_ccc_core.Crypto.Provider.{CryptoProvider}
use aliro_ccc_core.Crypto.Sp0.{decrypt_payload, mic_length}
use aliro_ccc_core.Frame.{
  MacHeader, FinalDataPayload, encode_final_data, decode_final_data, mac_header_length,
  final_data_message,
}
use aliro_ccc_core.Frame.Layout.{
  final_data_segments, encode_final_data_image, length-report_segments,
}
use aliro_ccc_core.Frame.Reports.{IsFinalDataPayload, decode_final_data-encode_final_data}
use aliro_ccc_core.Session.SentFrames.{IsSent, opens}
use aliro_ccc_core.Session.State.{Environment}
use aliro_ccc_core.Session.FinalData.{decrypted_final}

-- What an initiator sends: a payload written into a buffer of its length, sealed behind a header.
pub record IsGenuineFinalData (crypto : CryptoProvider) (key address : Bytes) (h : MacHeader)
    (f : FinalDataPayload) (frame : Bytes) : Type 0 where
  pub payload : IsFinalDataPayload f
  pub message : h.message_id ≡ final_data_message
  pub buffer : Bytes
  pub room : length buffer ≡ 18 + length f.responder_reports * 7
  pub sent : IsSent crypto key address h (encode_final_data f buffer).1 frame

length-encode_final_data :
    (f : FinalDataPayload) (output : Bytes)
    → length f.responder_reports ≤ 10
    → length output ≡ 18 + length f.responder_reports * 7
    → length (encode_final_data f output).1 ≡ 18 + length f.responder_reports * 7
unfolding final_data_segments
length-encode_final_data f output few e = rw (encode_final_data_image f output few (omega arith)) (
    length-append (concat (final_data_segments f))
      (drop (18 + length f.responder_reports * 7) output)
    ∙ omega (
      arith,
      length-report_segments f.responder_reports,
      length-drop (18 + length f.responder_reports * 7) output,
    ))

module _ (env : Environment) (key address : Bytes) (h : MacHeader) (f : FinalDataPayload)
    (frame : Bytes) (g : IsGenuineFinalData env.crypto key address h f frame) where
  abbrev plain : Bytes
  plain = (encode_final_data f g.buffer).1

  plain_decodes : decode_final_data plain ≡ ok f
  plain_decodes =
      (decode_final_data-encode_final_data f g.buffer g.payload (omega (arith, g.room))).1

  fits : length plain ≤ 128
  fits = omega (arith, length-encode_final_data f g.buffer g.payload.few g.room, g.payload.few)

  pub decrypts :
      decrypted_final env (
        decrypt_payload env.crypto key address h.frame_counter
          (take mac_header_length frame)
          (take (h.payload_length + mic_length) (drop mac_header_length frame))
          (replicate 128 0))
      ≡ ok f
  decrypts =
      ap (decrypted_final env)
        (opens env.crypto key address h plain frame g.sent (replicate 128 0) fits)
      ∙ ap decode_final_data (take-length_append plain (drop (length plain) (replicate 128 0)))
      ∙ plain_decodes
