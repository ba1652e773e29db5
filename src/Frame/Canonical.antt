-- ===== src/Frame/Canonical.antt =====
-- A header has one encoding: whatever `decodeHeader` accepts, `encodeHeader` writes again.
use aliro_ccc_core.Base.{
  ℕ, zero, suc, ◌+◌, ◌≤◌, ◌≡◌, refl, sym, ap, ◌∙◌, Bool, true, false, [], ◌∷◌, ◌++◌, arith, length,
  drop, take, concat, All,
}
use aliro_ccc_core.Base.Words.{
  Bytes, IsByte, byte_at, byte_at-IsByte, read_le16, read_le32, of_le16_sum, of_le24_sum,
  of_le32_sum,
}
use aliro_ccc_core.Core.{ok}
use aliro_ccc_core.Frame.{MacHeader, wrong_fields, decode_header, encode_header}
use aliro_ccc_core.Frame.Layout.{header_segments, encode_header_image}

-- The bytes at `i`, `i + 1`, … of a buffer.
bytes_from : ℕ → ℕ → Bytes → Bytes
bytes_from i zero bs = []
bytes_from i (suc n) bs = byte_at bs i ∷ bytes_from (i + 1) n bs

bytes_from-suc : (i n b : ℕ) (bs : Bytes) → bytes_from (suc i) n (b ∷ bs) ≡ bytes_from i n bs
unfolding bytes_from
bytes_from-suc i zero b bs = refl
bytes_from-suc i (suc n) b bs = ground (arith, bytes_from-suc (i + 1) n b bs)

take-eq-bytes_from : (n : ℕ) (bs : Bytes) → n ≤ length bs → take n bs ≡ bytes_from 0 n bs
unfolding bytes_from
take-eq-bytes_from zero bs h = refl
take-eq-bytes_from (suc n) [] h = absurd (omega arith)
take-eq-bytes_from (suc n) (b ∷ bs) h =
    ap (λ t. b ∷ t) (take-eq-bytes_from n bs (omega arith) ∙ sym (bytes_from-suc 0 n b bs))

-- The bytes of the fixed fields.
pub record HasFixedFields (f : Bytes) : Type 0 where
  pub control_lo : byte_at f 0 ≡ 0x49
  pub control_hi : byte_at f 1 ≡ 0x2b
  pub security : byte_at f 4 ≡ 0x16
  pub key_index : byte_at f 13 ≡ 0xaa
  pub ie_lo : byte_at f 14 ≡ 0x05
  pub ie_hi : byte_at f 15 ≡ 0x00
  pub oui0 : byte_at f 16 ≡ 0x1b
  pub oui1 : byte_at f 17 ≡ 0x19
  pub oui2 : byte_at f 18 ≡ 0x4a
  pub end_lo : byte_at f 21 ≡ 0x80
  pub end_hi : byte_at f 22 ≡ 0x3f

wrong_fields-HasFixedFields : (f : Bytes) → All IsByte f → wrong_fields f ≡ false → HasFixedFields f
unfolding wrong_fields
wrong_fields-HasFixedFields f h e =
    let at : (i : ℕ) → IsByte (byte_at f i) = λ i. byte_at-IsByte f i h in
    ground (
      arith,
      of_le16_sum (byte_at f 0) (byte_at f 1) (at 0) (at 1),
      of_le16_sum (byte_at f 14) (byte_at f 15) (at 14) (at 15),
      of_le24_sum (byte_at f 16) (byte_at f 17) (byte_at f 18) (at 16) (at 17),
      of_le16_sum (byte_at f 21) (byte_at f 22) (at 21) (at 22),
      at 0,
      at 1,
      at 14,
      at 15,
      at 16,
      at 17,
      at 18,
      at 21,
      at 22,
    )

-- What `decodeHeader` reads off the frame.
header_of : Bytes → MacHeader
header_of f = record {
  destination_short_address = read_le16 f 2;
  frame_counter = read_le32 f 5;
  key_source = byte_at f 12 ∷ byte_at f 11 ∷ byte_at f 10 ∷ byte_at f 9 ∷ [];
  message_id = byte_at f 19;
  payload_length = byte_at f 20;
}

decode_header_ok :
    (f : Bytes) (h : MacHeader)
    → decode_header f ≡ ok h
    → (23 ≤ length f) × (wrong_fields f ≡ false) × (h ≡ header_of f)
unfolding decode_header header_of
decode_header_ok f h e = unfold_ok (wrong_fields f) refl e
  where
    unfold_ok :
        (b : Bool)
        → wrong_fields f ≡ b
        → decode_header f ≡ ok h
        → (23 ≤ length f) × (wrong_fields f ≡ false) × (h ≡ header_of f)
    unfold_ok false w e = (ground arith, w, ground arith)
    unfold_ok true w e = ground arith

header_of_segments :
    (f : Bytes)
    → All IsByte f
    → HasFixedFields f
    → concat (header_segments (header_of f)) ≡ bytes_from 0 23 f
unfolding header_of header_segments bytes_from
header_of_segments f bytes x =
    let at : (i : ℕ) → IsByte (byte_at f i) = λ i. byte_at-IsByte f i bytes in
    ground (
      arith,
      of_le16_sum (byte_at f 2) (byte_at f 3) (at 2) (at 3),
      of_le32_sum (byte_at f 5) (byte_at f 6) (byte_at f 7) (byte_at f 8) (at 5) (at 6) (at 7),
      at 2,
      at 3,
      at 5,
      at 6,
      at 7,
      at 8,
      at 19,
      at 20,
    )

-- A frame that is accepted starts with the encoding of its header, and that encoding alone: so
-- encoding the decoded header into any buffer writes the first 23 bytes of the frame again.
pub encode_header-decode_header :
    (f output : Bytes) (h : MacHeader)
    → All IsByte f
    → decode_header f ≡ ok h
    → 23 ≤ length output
    → encode_header h output ≡ (ok 23, take 23 f ++ drop 23 output)
encode_header-decode_header f output h bytes e le =
    let (long, right, same) = decode_header_ok f h e in
    let fields = wrong_fields-HasFixedFields f bytes right in
    encode_header_image h output le
    ∙ ap (λ (t : Bytes). (ok 23, t ++ drop 23 output)) {x = concat (header_segments h)}
        (rw same (header_of_segments f bytes fields ∙ sym (take-eq-bytes_from 23 f long)))
