-- ===== src/Setup/Tlv/Stream.antt =====
-- The parser of messages against the layout of their elements.
use aliro_ccc_core.Base.{
  ℕ, zero, suc, ◌+◌, ◌-◌, ◌≤◌, ◌<◌, ◌^◌, ◌≡◌, refl, sym, ap, ◌∙◌, arith, List, [], ◌∷◌, ◌++◌,
  append_assoc, length, length-append, take, drop, take-length_append, ltb, Bool-cases, inl, inr,
  lt→ltb, le→ltb,
}
use aliro_ccc_core.Base.Words.{Bytes, byte_at, be16, of_be16_bytes}
use aliro_ccc_core.Core.{ok}
use aliro_ccc_core.Setup.Tlv.{TlvElement, parse_elements, parse_tlv_stream}

-- Elements as they stand in a message.
unfoldable pub image : List TlvElement → Bytes
image [] = []
image (e ∷ es) = e.tag ∷ length e.value ∷ (e.value ++ image es)

-- Fuel for the bytes that are left is enough: more of it gives the same result.
pub parse_elements-fuel :
    (fuel : ℕ) (stream : Bytes) (offset end : ℕ)
    → end - offset ≤ fuel
    → parse_elements (suc fuel) stream offset end ≡ parse_elements fuel stream offset end
unfolding parse_elements
parse_elements-fuel zero stream offset end h = ground arith
parse_elements-fuel (suc fuel) stream offset end h = elim (Bool-cases (ltb offset end)) [
  | inl e ↦
      ground (arith, parse_elements-fuel fuel stream (offset + 2 + byte_at stream (offset + 1)) end)
  | inr e ↦ rw e
]

-- An element as the loop reads it behind a prefix.
head-byte : (pre : Bytes) (b : ℕ) (rest : Bytes) → byte_at (pre ++ (b ∷ rest)) (length pre) ≡ b
head-byte [] b rest = refl
head-byte (p ∷ pre) b rest = head-byte pre b rest

second-byte :
    (pre : Bytes) (a b : ℕ) (rest : Bytes) → byte_at (pre ++ (a ∷ b ∷ rest)) (length pre + 1) ≡ b
second-byte [] a b rest = refl
second-byte (p ∷ pre) a b rest =
    ap (byte_at (p ∷ pre ++ (a ∷ b ∷ rest))) {x = length (p ∷ pre) + 1} {y = suc (length pre + 1)}
      (omega arith)
    ∙ second-byte pre a b rest

value-bytes :
    (pre : Bytes) (a b : ℕ) (value rest : Bytes)
    → take (length value) (drop (length pre + 2) (pre ++ (a ∷ b ∷ (value ++ rest)))) ≡ value
value-bytes [] a b value rest = take-length_append value rest
value-bytes (p ∷ pre) a b value rest =
    ap (λ k. take (length value) (drop k (p ∷ pre ++ (a ∷ b ∷ (value ++ rest)))))
      {x = length (p ∷ pre) + 2} {y = suc (length pre + 2)} (omega arith)
    ∙ value-bytes pre a b value rest

regroup :
    (pre : Bytes) (a b : ℕ) (value rest : Bytes)
    → pre ++ (a ∷ b ∷ (value ++ rest)) ≡ (pre ++ (a ∷ b ∷ value)) ++ rest
regroup pre a b value rest = sym (append_assoc pre (a ∷ b ∷ value) rest)

next_offset :
    (pre : Bytes) (elem : TlvElement)
    → length pre + 2 + length elem.value
      ≡ length (pre ++ (elem.tag ∷ length elem.value ∷ elem.value))
next_offset pre elem = omega (arith, length-append pre (elem.tag ∷ length elem.value ∷ elem.value))

parse_elements-end :
    (fuel : ℕ) (stream : Bytes) (offset end : ℕ)
    → end ≤ offset
    → parse_elements fuel stream offset end ≡ ok []
unfolding parse_elements
parse_elements-end zero stream offset end h = refl
parse_elements-end (suc fuel) stream offset end h = rw (le→ltb offset end h)

parse_elements-step :
    (fuel : ℕ) (stream : Bytes) (offset end : ℕ) (elem : TlvElement) (es : List TlvElement)
    → byte_at stream offset ≡ elem.tag
    → byte_at stream (offset + 1) ≡ length elem.value
    → take (length elem.value) (drop (offset + 2) stream) ≡ elem.value
    → offset + 2 + length elem.value ≤ end
    → parse_elements fuel stream (offset + 2 + length elem.value) end ≡ ok es
    → parse_elements (suc fuel) stream offset end ≡ ok (elem ∷ es)
unfolding parse_elements
parse_elements-step fuel stream offset end elem es t l v le rest = rw (
  t,
  l,
  v,
  lt→ltb offset end (omega arith),
  le→ltb end (offset + 2) (omega arith),
  le→ltb end (offset + 2 + length elem.value) le,
  rest,
)

pub parse_elements-image :
    (es : List TlvElement) (fuel : ℕ) (pre post : Bytes) (end : ℕ)
    → end ≡ length pre + length (image es)
    → length (image es) ≤ fuel
    → parse_elements fuel (pre ++ (image es ++ post)) (length pre) end ≡ ok es
unfolding image
parse_elements-image [] fuel pre post end e h =
    parse_elements-end fuel (pre ++ post) (length pre) end (omega arith)
parse_elements-image (elem ∷ es) zero pre post end e h = absurd (omega arith)
parse_elements-image (elem ∷ es) (suc fuel) pre post end e h =
    let rest = image es ++ post in
    let size = length-append elem.value (image es) in
    rw (append_assoc elem.value (image es) post) (
      parse_elements-step fuel (pre ++ (elem.tag ∷ length elem.value ∷ (elem.value ++ rest)))
        (length pre) end elem es (head-byte pre elem.tag (length elem.value ∷ (elem.value ++ rest)))
        (second-byte pre elem.tag (length elem.value) (elem.value ++ rest))
        (value-bytes pre elem.tag (length elem.value) elem.value rest) (omega (arith, size))
        (rw (regroup pre elem.tag (length elem.value) elem.value rest, next_offset pre elem)
          (parse_elements-image es fuel (pre ++ (elem.tag ∷ length elem.value ∷ elem.value)) post
            end (omega (arith, size, length-append pre (elem.tag ∷ length elem.value ∷ elem.value)))
            (omega (arith, size)))))

-- A message whose length field is that of its elements parses to them, whatever follows it: each
-- element's value is shorter than 256 bytes and all of them together than 65,536.
pub parse_tlv_stream-image :
    (category message : ℕ) (es : List TlvElement) (post : Bytes)
    → length (image es) < 2 ^ 16
    → parse_tlv_stream (category ∷ message ∷ (be16 (length (image es)) ++ (image es ++ post)))
      ≡ ok es
unfolding parse_tlv_stream
parse_tlv_stream-image category message es post h =
    let size = length-append (image es) post in
    rw
      (
        of_be16_bytes (length (image es)) h,
        le→ltb (length (category ∷ message ∷ (be16 (length (image es)) ++ (image es ++ post)))) 4
            (omega arith),
        le→ltb (length (category ∷ message ∷ (be16 (length (image es)) ++ (image es ++ post))) - 4)
            (length (image es)) (omega (arith, size)),
      )
      (parse_elements-image es (4 + length (image es))
        (category ∷ message ∷ be16 (length (image es))) post (4 + length (image es)) (omega arith)
        (omega arith))
