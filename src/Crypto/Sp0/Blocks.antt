-- ===== src/Crypto/Sp0/Blocks.antt =====
-- The blocks that `applyCtrStream` takes off its input, and their exclusive or with the key stream.
use aliro_ccc_core.Base.{
  ℕ, zero, suc, ◌≤◌, ◌<◌, ◌≡◌, refl, ap, ap₂, false, ◌⊎◌, inl, inr, [], ◌∷◌, ◌++◌, arith, ◌==◌,
  length, take, drop, bit_xor-cancel, length-take, length-drop,
}
use aliro_ccc_core.Base.Words.{Bytes}
use aliro_ccc_core.Crypto.Sp0.{xor_blocks}

pub length-xor_blocks :
    (xs ys : Bytes) → length xs ≤ length ys → length (xor_blocks xs ys) ≡ length xs
unfolding xor_blocks
length-xor_blocks [] ys h = refl
length-xor_blocks (x ∷ xs) [] h = absurd (omega arith)
length-xor_blocks (x ∷ xs) (y ∷ ys) h = ap suc (length-xor_blocks xs ys (omega arith))

pub xor_blocks-cancel :
    (xs ys : Bytes) → length xs ≤ length ys → xor_blocks (xor_blocks xs ys) ys ≡ xs
unfolding xor_blocks
xor_blocks-cancel [] ys h = refl
xor_blocks-cancel (x ∷ xs) [] h = absurd (omega arith)
xor_blocks-cancel (x ∷ xs) (y ∷ ys) h =
    ap₂ ◌∷◌ (bit_xor-cancel x y) (xor_blocks-cancel xs ys (omega arith))

-- A block and what follows it, taken apart again; only the last block may be short.
pub split_block :
    (b r : Bytes)
    → length b ≤ 16
    → (length r ≡ 0) ⊎ (length b ≡ 16)
    → (take 16 (b ++ r) ≡ b) × (drop 16 (b ++ r) ≡ r)
split_block b r h c = split 16 b r h c
  where
    short : (n : ℕ) (r : Bytes) → length r ≡ 0 → (take n r ≡ []) × (drop n r ≡ r)
    short zero [] h = (refl, refl)
    short (suc n) [] h = (refl, refl)
    short zero (x ∷ r) h = absurd (omega arith)
    short (suc n) (x ∷ r) h = absurd (omega arith)

    split :
        (n : ℕ) (b r : Bytes)
        → length b ≤ n
        → (length r ≡ 0) ⊎ (length b ≡ n)
        → (take n (b ++ r) ≡ b) × (drop n (b ++ r) ≡ r)
    split n [] r h (inl e) = short n r e
    split zero [] r h (inr e) = (refl, refl)
    split (suc n) [] r h (inr e) = absurd (omega arith)
    split zero (x ∷ b) r h c = absurd (omega arith)
    split (suc n) (x ∷ b) r h c =
        let (t, d) = split n b r (omega arith) (omega arith) in (ap (λ t. x ∷ t) t, d)

pub suc-eq-zero : (n : ℕ) → (suc n == 0) ≡ false
suc-eq-zero n = ground arith

-- `b` is the next block of `b ++ r`.
pub record IsSplit (b r : Bytes) : Type 0 where
  pub some_bytes : 0 < length b
  pub fits : length b ≤ 16
  pub full : (length r ≡ 0) ⊎ (length b ≡ 16)

pub IsSplit-of : (input : Bytes) → 0 < length input → IsSplit (take 16 input) (drop 16 input)
IsSplit-of input h = record {
  some_bytes = omega (arith, length-take 16 input);
  fits = omega (arith, length-take 16 input);
  full = omega (arith, length-take 16 input, length-drop 16 input);
}
