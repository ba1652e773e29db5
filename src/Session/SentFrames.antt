-- ===== src/Session/SentFrames.antt =====
-- A frame as another device sends it: the codec and the SP0 engine, one after the other.
use aliro_ccc_core.Base.{
  ℕ, ◌+◌, ◌≤◌, ◌≡◌, sym, ap, ap₂, ◌∙◌, ◌++◌, append_assoc, arith, length, take, drop, length-append,
  length-drop, take-length_append, drop-length_append, take_all,
}
use aliro_ccc_core.Base.Words.{Bytes}
use aliro_ccc_core.Core.{ok}
use aliro_ccc_core.Crypto.Provider.{CryptoProvider}
use aliro_ccc_core.Crypto.Sp0.{encrypt_payload, decrypt_payload, mic_length}
use aliro_ccc_core.Crypto.Sp0.Sealing.{Sealed, length-Sealed, decrypt_opens}
use aliro_ccc_core.Crypto.Sp0.Accepted.{encrypt_accepts}
use aliro_ccc_core.Frame.{MacHeader, encode_header, decode_header, mac_header_length}
use aliro_ccc_core.Frame.Layout.{header_segments, encode_header_image}
use aliro_ccc_core.Frame.RoundTrip.{IsMacHeader, decode_header_image}

-- The header, written into a buffer of its length, and a payload that is sealed behind it.
pub record IsSent (crypto : CryptoProvider) (key address : Bytes) (h : MacHeader)
    (plain frame : Bytes) : Type 0 where
  pub header : IsMacHeader h
  pub sized : length plain ≡ h.payload_length
  pub header_buffer : Bytes
  pub header_room : length header_buffer ≡ 23
  pub output : Bytes
  pub n : ℕ
  pub sealed : Bytes
  pub sealing :
      encrypt_payload crypto key address h.frame_counter
        (encode_header h header_buffer).1
        plain
        output
      ≡ (ok n, sealed)
  pub whole : frame ≡ (encode_header h header_buffer).1 ++ take n sealed

length-encode_header :
    (h : MacHeader) (output : Bytes) → length output ≡ 23 → length (encode_header h output).1 ≡ 23
unfolding header_segments
length-encode_header h output e =
    rw (encode_header_image h output (omega arith)) (omega (arith, length-drop 23 output))

decode_header_sent :
    (h : MacHeader) (output rest : Bytes)
    → IsMacHeader h
    → length output ≡ 23
    → decode_header ((encode_header h output).1 ++ rest) ≡ ok h
decode_header_sent h output rest v e =
    rw (encode_header_image h output (omega arith), append_assoc)
      (decode_header_image h (drop 23 output ++ rest) v)

module _ (crypto : CryptoProvider) (key address : Bytes) (h : MacHeader) (plain frame : Bytes)
    (g : IsSent crypto key address h plain frame) where
  abbrev head : Bytes
  head = (encode_header h g.header_buffer).1

  length-head : length head ≡ 23
  length-head = length-encode_header h g.header_buffer g.header_room

  is_sealed : Sealed crypto key address h.frame_counter head plain (take g.n g.sealed)
  is_sealed =
      (encrypt_accepts crypto key address h.frame_counter head plain g.output g.sealed g.n
        g.sealing).1

  length-sent : length (take g.n g.sealed) ≡ h.payload_length + mic_length
  length-sent =
      length-Sealed crypto key address h.frame_counter head is_sealed ∙ ap (λ n. n + 8) g.sized

  pub length-frame : length frame ≡ 23 + (h.payload_length + mic_length)
  length-frame =
      ap length g.whole ∙ length-append head (take g.n g.sealed) ∙ ap₂ ◌+◌ length-head length-sent

  pub decodes : decode_header frame ≡ ok h
  decodes =
      ap decode_header g.whole
      ∙ decode_header_sent h g.header_buffer (take g.n g.sealed) g.header g.header_room

  front : take mac_header_length frame ≡ head
  front =
      ap₂ (λ k t. take k t) (sym length-head) g.whole ∙ take-length_append head (take g.n g.sealed)

  back : take (h.payload_length + mic_length) (drop mac_header_length frame) ≡ take g.n g.sealed
  back =
      ap (λ t. take (h.payload_length + mic_length) t)
        (ap₂ (λ k t. drop k t) (sym length-head) g.whole
          ∙ drop-length_append head (take g.n g.sealed))
      ∙ take_all (h.payload_length + mic_length) (take g.n g.sealed) (omega (arith, length-sent))

  -- The receiver opens it to the payload, in any buffer that is large enough.
  pub opens :
      (buffer : Bytes)
      → length plain ≤ length buffer
      → decrypt_payload crypto key address h.frame_counter
          (take mac_header_length frame)
          (take (h.payload_length + mic_length) (drop mac_header_length frame))
          buffer
        ≡ (ok (length plain), plain ++ drop (length plain) buffer)
  opens buffer le =
      rw (front, back)
        (decrypt_opens crypto key address h.frame_counter head plain (take g.n g.sealed) buffer
          is_sealed le)
