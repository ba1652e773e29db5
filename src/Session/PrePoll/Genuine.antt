-- ===== src/Session/PrePoll/Genuine.antt =====
-- A genuine Pre-Poll is accepted: the codec, the SP0 engine and `decodePrePollFrame`.
use aliro_ccc_core.Base.{
  ◌+◌, ◌≡◌, ap, ◌∙◌, true, false, not, ◌&&◌, ◌++◌, append_assoc, arith, length, drop, replicate,
  le→ltb, length-drop, if-false, not-==,
}
use aliro_ccc_core.Base.Words.{Bytes}
use aliro_ccc_core.Core.{Result, ok, err, malformed_frame}
use aliro_ccc_core.Crypto.Provider.{CryptoProvider}
use aliro_ccc_core.Crypto.Sp0.{mic_length}
use aliro_ccc_core.Frame.{
  MacHeader, PrePollPayload, encode_pre_poll, decode_pre_poll, mac_header_length,
}
use aliro_ccc_core.Frame.Layout.{pre_poll_segments, encode_pre_poll_image}
use aliro_ccc_core.Frame.RoundTrip.{IsPrePollPayload, decode_pre_poll_image}
use aliro_ccc_core.Session.SentFrames.{IsSent, length-frame, decodes, opens}
use aliro_ccc_core.Session.PrePoll.{
  Freshness, SessionKeys, not_ahead, is_stale, header_ok, decrypted_pre_poll, accept_pre_poll,
  open_pre_poll, with_header, decode_pre_poll_frame,
}

length-encode_pre_poll :
    (p : PrePollPayload) (output : Bytes)
    → length output ≡ 13
    → length (encode_pre_poll p output).1 ≡ 13
unfolding pre_poll_segments
length-encode_pre_poll p output e =
    rw (encode_pre_poll_image p output (omega arith)) (omega (arith, length-drop 13 output))

decode_pre_poll_sent :
    (p : PrePollPayload) (output rest : Bytes)
    → IsPrePollPayload p
    → length output ≡ 13
    → decode_pre_poll ((encode_pre_poll p output).1 ++ rest) ≡ ok p
decode_pre_poll_sent p output rest v e =
    rw (encode_pre_poll_image p output (omega arith), append_assoc)
      (decode_pre_poll_image p (drop 13 output ++ rest) v)

-- What an initiator sends: a payload written into a buffer of its length, sealed behind a header.
pub record IsGenuinePrePoll (crypto : CryptoProvider) (keys : SessionKeys) (h : MacHeader)
    (p : PrePollPayload) (frame : Bytes) : Type 0 where
  pub payload : IsPrePollPayload p
  pub for_us : header_ok keys h ≡ true
  pub session : p.session_id ≡ keys.session_id
  pub buffer : Bytes
  pub room : length buffer ≡ 13
  pub sent :
      IsSent crypto keys.mupsk1 keys.addresses.source_long h (encode_pre_poll p buffer).1 frame

module _ (crypto : CryptoProvider) (keys : SessionKeys) where
  opened :
      (h : MacHeader) (p : PrePollPayload) (frame : Bytes)
      → IsGenuinePrePoll crypto keys h p frame
      → open_pre_poll crypto keys frame h ≡ ok p
  unfolding open_pre_poll
  opened h p frame g =
      let plain = (encode_pre_poll p g.buffer).1 in
      let long : length plain ≡ 13 = length-encode_pre_poll p g.buffer g.room in
      ap decrypted_pre_poll (
        opens crypto keys.mupsk1 keys.addresses.source_long h plain frame g.sent (replicate 13 0)
          (omega (arith, long)))
      ∙ decode_pre_poll_sent p g.buffer (drop (length plain) (replicate 13 0)) g.payload g.room

  -- A Pre-Poll that an initiator of the session sealed under the session's key, with a counter that
  -- is not stale and an STS index that is ahead of the last one, is accepted with its payload, and
  -- its counter and its index are remembered.
  pub genuine_pre_poll_accepted :
      (s : Freshness) (h : MacHeader) (p : PrePollPayload) (frame : Bytes)
      → IsGenuinePrePoll crypto keys h p frame
      → is_stale s h ≡ false
      → (s.has_pre_poll_sts_index && not_ahead p.poll_sts_index s.last_pre_poll_sts_index) ≡ false
      → decode_pre_poll_frame crypto keys s frame ≡ (
        ok p,
        record {
          last_pre_poll_counter = h.frame_counter;
          has_received_pre_poll_counter = true;
          last_pre_poll_sts_index = p.poll_sts_index;
          has_pre_poll_sts_index = true;
        },
      )
  unfolding decode_pre_poll_frame
  genuine_pre_poll_accepted s h p frame g fresh ahead =
      let refusal : Result PrePollPayload × Freshness = (err malformed_frame, s) in
      let plain = (encode_pre_poll p g.buffer).1 in
      ap (with_header crypto keys s frame)
        (decodes crypto keys.mupsk1 keys.addresses.source_long h plain frame g.sent)
      ∙ if-false refusal _ (ap not g.for_us)
      ∙ if-false refusal _ fresh
      ∙ if-false refusal _ (
          le→ltb (length frame) (mac_header_length + (h.payload_length + mic_length)) (
            omega (
              arith,
              length-frame crypto keys.mupsk1 keys.addresses.source_long h plain frame g.sent,
            )))
      ∙ ap (accept_pre_poll keys s h) (opened h p frame g)
      ∙ if-false refusal _ (not-== p.session_id keys.session_id g.session)
      ∙ if-false refusal _ ahead
