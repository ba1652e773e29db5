-- ===== src/Crypto/Kdf/Message.antt =====
-- The message that `kdf108` gives to the CMAC, and the STS IV.
use aliro_ccc_core.Base.{
  ℕ, suc, ◌+◌, ◌≤◌, ◌<◌, ◌^◌, ◌≡◌, ◌≢◌, refl, sym, ap, ◌∙◌, List, [], ◌∷◌, ◌++◌, arith, length,
  take, drop, replicate, write, stores, concat, adjacent, stores-adjacent, length-append,
  length-take, length-drop, take-length_append, drop-length_append, take-append-drop,
  write-length_append, drop-drop,
}
use aliro_ccc_core.Base.Words.{Bytes, u32, be32, read_be32, of_be32_bytes}
use aliro_ccc_core.Crypto.Provider.{CryptoProvider}
use aliro_ccc_core.Crypto.Kdf.{kdf108, derive_sts_iv}

-- The counter, the label, a zero byte, the context and the length in bits.
pub kdf_message : ℕ → Bytes → Bytes → ℕ → Bytes
kdf_message counter label context length_bits =
    concat (be32 counter ∷ label ∷ (0 ∷ []) ∷ context ∷ be32 length_bits ∷ [])

take-stores :
    (ss : List Bytes) (buffer : Bytes) (n : ℕ)
    → n ≡ length (concat ss)
    → n ≤ length buffer
    → take n (stores (adjacent 0 ss) buffer) ≡ concat ss
take-stores ss buffer n e le =
    ap (take n) (stores-adjacent ss 0 [] buffer refl (omega arith))
    ∙ ap (λ k. take k (concat ss ++ drop (length (concat ss)) buffer)) e
    ∙ take-length_append (concat ss) (drop (length (concat ss)) buffer)

module _ (crypto : CryptoProvider) where
  -- Where the five parts fit the buffer of 64 bytes, `kdf108` is the CMAC of their concatenation, nothing of the
  -- buffer's zeros included.
  pub kdf108-eq-cmac :
      (key label context : Bytes) (counter length_bits : ℕ)
      → 9 + length label + length context ≤ 64
      → kdf108 crypto key counter label context length_bits
        ≡ crypto.aes_cmac key (kdf_message counter label context length_bits)
  unfolding kdf108 kdf_message
  kdf108-eq-cmac key label context counter length_bits h =
      let ss : List Bytes = be32 counter ∷ label ∷ (0 ∷ []) ∷ context ∷ be32 length_bits ∷ [] in
      let n : ℕ = 4 + length label + 1 + length context + 4 in
      let behind : length (label ++ (0 ∷ (context ++ be32 length_bits)))
          ≡ length label + suc (length context + 4) =
        length-append label (0 ∷ (context ++ be32 length_bits))
        ∙ ap (λ k. length label + suc k) (length-append context (be32 length_bits)) in
      ap (crypto.aes_cmac key)
        (take-stores ss (replicate 64 0) n (omega (arith, behind)) (omega arith))

-- The IV is the salted hash with the index added to its third word, modulo 2 ^ 32.
pub derive_sts_iv_image :
    (hash : Bytes) (sts_index : ℕ)
    → length hash ≡ 16
    → derive_sts_iv hash sts_index
      ≡ take 8 hash ++ (be32 (u32 (read_be32 hash 8 + sts_index)) ++ drop 12 hash)
unfolding derive_sts_iv
derive_sts_iv_image hash sts_index h =
    let v : ℕ = u32 (read_be32 hash 8 + sts_index) in
    let eight : length (take 8 hash) ≡ 8 = omega (arith, length-take 8 hash) in
    ap (write 8 (be32 v)) {y = take 8 hash ++ drop 8 hash} (sym (take-append-drop 8 hash))
    ∙ ap (λ k. write k (be32 v) (take 8 hash ++ drop 8 hash)) (sym eight)
    ∙ write-length_append (take 8 hash) (be32 v) (drop 8 hash) (omega (arith, length-drop 8 hash))
    ∙ ap (λ t. take 8 hash ++ (be32 v ++ t)) (drop-drop 4 8 hash)

be32-injective :
    (v w : ℕ) (xs : Bytes) → v < 2 ^ 32 → w < 2 ^ 32 → be32 v ++ xs ≡ be32 w ++ xs → v ≡ w
be32-injective v w xs hv hw e = ground (arith, of_be32_bytes v hv, of_be32_bytes w hw)

pub derive_sts_iv-injective :
    (hash : Bytes) (i j : ℕ)
    → length hash ≡ 16
    → i < 2 ^ 32
    → j < 2 ^ 32
    → derive_sts_iv hash i ≡ derive_sts_iv hash j
    → i ≡ j
derive_sts_iv-injective hash i j h hi hj e =
    let eight : length (take 8 hash) ≡ 8 = omega (arith, length-take 8 hash) in
    let v : ℕ = u32 (read_be32 hash 8 + i) in
    let w : ℕ = u32 (read_be32 hash 8 + j) in
    let image = sym (derive_sts_iv_image hash i h) ∙ e ∙ derive_sts_iv_image hash j h in
    let behind : be32 v ++ drop 12 hash ≡ be32 w ++ drop 12 hash =
      sym (drop-length_append (take 8 hash) (be32 v ++ drop 12 hash))
      ∙ ap (drop (length (take 8 hash))) image
      ∙ drop-length_append (take 8 hash) (be32 w ++ drop 12 hash) in
    omega (arith, be32-injective v w (drop 12 hash) (omega arith) (omega arith) behind)

-- No two slots of a session share an STS IV: with one salted hash of 16 bytes, different 32-bit
-- indices have different IVs.
pub derive_sts_iv-distinct :
    (hash : Bytes) (i j : ℕ)
    → length hash ≡ 16
    → i < 2 ^ 32
    → j < 2 ^ 32
    → i ≢ j
    → derive_sts_iv hash i ≢ derive_sts_iv hash j
derive_sts_iv-distinct hash i j h hi hj other e = other (derive_sts_iv-injective hash i j h hi hj e)
