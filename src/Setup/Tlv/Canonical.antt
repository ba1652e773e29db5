-- ===== src/Setup/Tlv/Canonical.antt =====
-- What the parser of messages accepts.
use aliro_ccc_core.Base.{
  ℕ, zero, suc, ◌+◌, ◌-◌, ◌≤◌, ◌<◌, ◌≡◌, refl, sym, ap, subst, ◌∙◌, arith, List, [], ◌∷◌, ◌++◌,
  length, length-take, length-drop, take, drop, drop-drop, ltb, Bool-cases, inl, inr, false, min,
}
use aliro_ccc_core.Base.Words.{Bytes, byte_at, read_be16}
use aliro_ccc_core.Core.{ok, ◌>>=◌, >>=-eq-ok, ok-injective}
use aliro_ccc_core.Setup.Tlv.{TlvElement, parse_elements, parse_tlv_stream}
use aliro_ccc_core.Setup.Tlv.Stream.{image}

cut-head :
    (offset m : ℕ) (stream : Bytes)
    → offset < length stream
    → take (suc m) (drop offset stream) ≡ byte_at stream offset ∷ take m (drop (suc offset) stream)
cut-head zero m [] h = absurd (omega arith)
cut-head zero m (b ∷ bs) h = refl
cut-head (suc offset) m [] h = absurd (omega arith)
cut-head (suc offset) m (b ∷ bs) h = cut-head offset m bs (omega arith)

take-nil : (m : ℕ) → ◌≡◌ {A = Bytes} (take m []) []
take-nil zero = refl
take-nil (suc m) = refl

take-split : (k m : ℕ) (xs : Bytes) → take (k + m) xs ≡ take k xs ++ take m (drop k xs)
take-split zero m xs = ap (λ n. take n xs) {x = zero + m} (omega arith)
take-split (suc k) m [] =
    ap (λ n. take n []) {x = suc k + m} {y = suc (k + m)} (omega arith) ∙ sym (take-nil m)
take-split (suc k) m (x ∷ xs) =
    ap (λ n. take n (x ∷ xs)) {x = suc k + m} {y = suc (k + m)} (omega arith)
    ∙ ap (λ t. x ∷ t) (take-split k m xs)

one : (offset : ℕ) → suc offset ≡ offset + 1
one offset = omega arith

two : (offset : ℕ) → suc (suc offset) ≡ offset + 2
two offset = omega arith

cut-element :
    (offset len m : ℕ) (stream : Bytes)
    → offset + 2 ≤ length stream
    → take (suc (suc (len + m))) (drop offset stream)
      ≡ byte_at stream offset
        ∷ byte_at stream (offset + 1)
        ∷ (take len (drop (offset + 2) stream) ++ take m (drop (offset + 2 + len) stream))
cut-element offset len m stream h =
    cut-head offset (suc (len + m)) stream (omega arith)
    ∙ ap (λ t. byte_at stream offset ∷ t)
        (cut-head (suc offset) (len + m) stream (omega arith)
          ∙ rw (
            take-split len m (drop (suc (suc offset)) stream),
            drop-drop len (suc (suc offset)) stream,
            two offset,
            one offset,
          ))

canonical_element :
    (fuel : ℕ) (stream : Bytes) (offset end : ℕ) (es : List TlvElement)
    → end ≤ length stream
    → ltb end (offset + 2) ≡ false
    → ltb end (offset + 2 + byte_at stream (offset + 1)) ≡ false
    → (parse_elements fuel stream (offset + 2 + byte_at stream (offset + 1)) end >>= λ elements.
        ok (
          record {
            tag = byte_at stream offset;
            value = take (byte_at stream (offset + 1)) (drop (offset + 2) stream);
          }
          ∷ elements))
      ≡ ok es
    → ((rest : List TlvElement)
        → offset + 2 + byte_at stream (offset + 1) ≤ end
        → end ≤ length stream
        → end ≤ offset + 2 + byte_at stream (offset + 1) + fuel
        → parse_elements fuel stream (offset + 2 + byte_at stream (offset + 1)) end ≡ ok rest
        → image rest
          ≡ take
              (end - (offset + 2 + byte_at stream (offset + 1)))
              (drop (offset + 2 + byte_at stream (offset + 1)) stream))
    → end ≤ offset + suc fuel
    → image es ≡ take (end - offset) (drop offset stream)
unfolding image
canonical_element fuel stream offset end es e b c h ih f =
    let next = offset + 2 + byte_at stream (offset + 1) in
    let (rest, e1, e2) =
      >>=-eq-ok (parse_elements fuel stream next end)
        (λ elements. ok (
          record {
            tag = byte_at stream offset;
            value = take (byte_at stream (offset + 1)) (drop (offset + 2) stream);
          }
          ∷ elements))
        h in
    let size = length-drop (offset + 2) stream in
    let cut = length-take (byte_at stream (offset + 1)) (drop (offset + 2) stream) in
    let fits : min (byte_at stream (offset + 1)) (length (drop (offset + 2) stream))
        ≡ byte_at stream (offset + 1) =
      ground arith in
    subst (λ t. image t ≡ take (end - offset) (drop offset stream)) (ok-injective e2)
      (sym (
        ap (λ n. take n (drop offset stream)) {x = end - offset}
          {y = suc (suc (byte_at stream (offset + 1) + (end - next)))} (ground arith)
        ∙ cut-element offset (byte_at stream (offset + 1)) (end - next) stream (ground arith)
        ∙ rw (cut, fits, ih rest (ground arith) e (ground arith) e1)))

-- What the loop accepts is the layout of what it returns: every byte belongs to one element.
pub parse_elements-canonical :
    (fuel : ℕ) (stream : Bytes) (offset end : ℕ) (es : List TlvElement)
    → offset ≤ end
    → end ≤ length stream
    → end ≤ offset + fuel
    → parse_elements fuel stream offset end ≡ ok es
    → image es ≡ take (end - offset) (drop offset stream)
unfolding parse_elements image
parse_elements-canonical zero stream offset end es o e f h =
    subst (λ t. image t ≡ take (end - offset) (drop offset stream)) (ok-injective h)
      (ap (λ n. take n (drop offset stream)) {x = 0} (omega arith))
parse_elements-canonical (suc fuel) stream offset end es o e f h =
    elim (Bool-cases (ltb offset end)) [
      | inl a ↦ elim (Bool-cases (ltb end (offset + 2))) [
        | inl b ↦ cc (h, a, b)
        | inr b ↦ elim (Bool-cases (ltb end (offset + 2 + byte_at stream (offset + 1)))) [
          | inl c ↦ cc (h, a, b, c)
          | inr c ↦
              canonical_element fuel stream offset end es e b c (rw (a, b, c) at h)
                (parse_elements-canonical fuel stream (offset + 2 + byte_at stream (offset + 1))
                  end)
                f
        ]
      ]
      | inr a ↦
          subst (λ t. image t ≡ take (end - offset) (drop offset stream)) (ok-injective (rw a at h))
            (ap (λ n. take n (drop offset stream)) {x = 0} (ground arith))
    ]

-- What the parser of messages accepts is the layout of the elements that it returns: the bytes
-- behind the header, as many as the length field says, all of them within the message.
pub parse_tlv_stream_canonical :
    (stream : Bytes) (es : List TlvElement)
    → parse_tlv_stream stream ≡ ok es
    → (image es ≡ take (read_be16 stream 2) (drop 4 stream))
      × (4 + read_be16 stream 2 ≤ length stream)
unfolding parse_tlv_stream
parse_tlv_stream_canonical stream es h =
    let payload_len = read_be16 stream 2 in
    elim (Bool-cases (ltb (length stream) 4)) [
      | inl a ↦ cc (h, a)
      | inr a ↦ elim (Bool-cases (ltb (length stream - 4) payload_len)) [
        | inl b ↦ cc (h, a, b)
        | inr b ↦ (
          parse_elements-canonical (4 + payload_len) stream 4 (4 + payload_len) es (omega arith)
                (ground arith) (omega arith) (rw (a, b) at h)
              ∙ ap (λ n. take n (drop 4 stream)) {y = payload_len} (omega arith),
          ground arith,
        )
      ]
    ]
