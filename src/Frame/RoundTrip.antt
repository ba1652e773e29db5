-- ===== src/Frame/RoundTrip.antt =====
-- The decoders of FrameCodec.cpp read back what its encoders wrote.
use aliro_ccc_core.Base.{
  ◌^◌, ◌≤◌, ◌<◌, ◌≡◌, refl, false, [], ◌∷◌, ◌++◌, arith, length, drop, concat,
}
use aliro_ccc_core.Base.Words.{
  Bytes, IsByte, byte_at, of_le16, of_le24, of_le16_bytes, of_le32_bytes,
}
use aliro_ccc_core.Core.{ok}
use aliro_ccc_core.Frame.{
  MacHeader, PrePollPayload, wrong_fields, decode_header, encode_header, decode_pre_poll,
  encode_pre_poll,
}
use aliro_ccc_core.Frame.Layout.{
  header_segments, encode_header_image, pre_poll_segments, encode_pre_poll_image,
}

-- The fields of a header fit the types of `MacHeader`.
pub record IsMacHeader (h : MacHeader) : Type 0 where
  pub destination : h.destination_short_address < 2 ^ 16
  pub counter : h.frame_counter < 2 ^ 32
  pub source : length h.key_source ≡ 4
  pub message : IsByte h.message_id
  pub payload : IsByte h.payload_length

four_bytes :
    (bs : Bytes)
    → length bs ≡ 4
    → byte_at bs 0 ∷ byte_at bs 1 ∷ byte_at bs 2 ∷ byte_at bs 3 ∷ [] ≡ bs
four_bytes [] h = absurd (omega arith)
four_bytes (a ∷ []) h = absurd (omega arith)
four_bytes (a ∷ b ∷ []) h = absurd (omega arith)
four_bytes (a ∷ b ∷ c ∷ []) h = absurd (omega arith)
four_bytes (a ∷ b ∷ c ∷ d ∷ []) h = refl
four_bytes (a ∷ b ∷ c ∷ d ∷ e ∷ bs) h = absurd (omega arith)

right_fields :
    (h : MacHeader) (rest : Bytes) → wrong_fields (concat (header_segments h) ++ rest) ≡ false
unfolding wrong_fields header_segments of_le16 of_le24
right_fields h rest = refl

pub decode_header_image :
    (h : MacHeader) (rest : Bytes)
    → IsMacHeader h
    → decode_header (concat (header_segments h) ++ rest) ≡ ok h
unfolding decode_header header_segments
decode_header_image h rest v = rw (right_fields h rest) (
    ground (
      arith,
      of_le16_bytes h.destination_short_address,
      of_le32_bytes h.frame_counter,
      four_bytes h.key_source,
    ))

-- Whatever the output buffer held, decoding the frame that `encode_header` wrote gives the header.
pub decode_header-encode_header :
    (h : MacHeader) (output : Bytes)
    → IsMacHeader h
    → 23 ≤ length output
    → ((encode_header h output).0 ≡ ok 23) × (decode_header (encode_header h output).1 ≡ ok h)
decode_header-encode_header h output v le =
    rw (encode_header_image h output le) (refl, decode_header_image h (drop 23 output) v)

pub record IsPrePollPayload (p : PrePollPayload) : Type 0 where
  pub session : p.session_id < 2 ^ 32
  pub sts : p.poll_sts_index < 2 ^ 32
  pub block : p.ranging_block < 2 ^ 16
  pub hop : IsByte p.hop_flag
  pub round : p.round_index < 2 ^ 16

pub decode_pre_poll_image :
    (p : PrePollPayload) (rest : Bytes)
    → IsPrePollPayload p
    → decode_pre_poll (concat (pre_poll_segments p) ++ rest) ≡ ok p
unfolding decode_pre_poll pre_poll_segments
decode_pre_poll_image p rest v = ground (
  arith,
  of_le32_bytes p.session_id,
  of_le32_bytes p.poll_sts_index,
  of_le16_bytes p.ranging_block,
  of_le16_bytes p.round_index,
)

-- The same for the payload of a Pre-Poll message.
pub decode_pre_poll-encode_pre_poll :
    (p : PrePollPayload) (output : Bytes)
    → IsPrePollPayload p
    → 13 ≤ length output
    → ((encode_pre_poll p output).0 ≡ ok 13) × (decode_pre_poll (encode_pre_poll p output).1 ≡ ok p)
decode_pre_poll-encode_pre_poll p output v le =
    rw (encode_pre_poll_image p output le) (refl, decode_pre_poll_image p (drop 13 output) v)
