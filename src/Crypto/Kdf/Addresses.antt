-- ===== src/Crypto/Kdf/Addresses.antt =====
-- The addresses of a session are never reserved ones, and what the STS IV is.
use aliro_ccc_core.Base.{
  ℕ, ◌<◌, ◌≡◌, refl, sym, ap, ◌∙◌, subst, [], ◌∷◌, arith, true, false, bit_and, length, take, drop,
  Bool-cases, inl, inr, length-take, length-drop, length-write,
}
use aliro_ccc_core.Base.Words.{Bytes, IsByte, byte_at, byte_at-IsByte, be32, of_be16, of_be16_sum}
use aliro_ccc_core.Core.{ok, ok-injective, >>=-eq-ok, MacAddresses}
use aliro_ccc_core.Crypto.Provider.{CryptoProvider}
use aliro_ccc_core.Crypto.Kdf.{
  is_reserved, all_ff, sanitize_reserved_address, derive_addresses, kdf108, label_uad,
}

reserved_first : (x : ℕ) (rest : Bytes) → is_reserved (x ∷ rest) ≡ true → x ≡ 0xff
unfolding is_reserved
reserved_first x rest e = ground arith

masked_first : (rest : Bytes) → is_reserved (0x7f ∷ rest) ≡ false
unfolding is_reserved
masked_first rest = ground arith

-- A sanitized address is not reserved: its first byte loses the top bit, if it was.
sanitize-not_reserved :
    (addr : Bytes) → 0 < length addr → is_reserved (sanitize_reserved_address addr) ≡ false
sanitize-not_reserved [] h = absurd (omega arith)
sanitize-not_reserved (x ∷ rest) h = elim (Bool-cases (is_reserved (x ∷ rest))) [
  | inr free ↦ ap is_reserved (kept free) ∙ free
  | inl taken ↦
      let first : x ≡ 0xff = reserved_first x rest taken in
      ap is_reserved (masked taken ∙ ap (λ k. bit_and k 0x7f ∷ rest) first) ∙ masked_first rest
]
  where
    kept : is_reserved (x ∷ rest) ≡ false → sanitize_reserved_address (x ∷ rest) ≡ x ∷ rest
    kept e = unfold sanitize_reserved_address in rw e

    masked :
        is_reserved (x ∷ rest) ≡ true → sanitize_reserved_address (x ∷ rest) ≡ bit_and x 0x7f ∷ rest
    masked e = unfold sanitize_reserved_address in rw e

length-sanitize : (addr : Bytes) → length (sanitize_reserved_address addr) ≡ length addr
unfolding sanitize_reserved_address
length-sanitize addr = ground (arith, length-write 0 (bit_and (byte_at addr 0) 0x7f ∷ []) addr)

-- The number that a sanitized pair of bytes makes, the first of them high.
short_below :
    (x y : ℕ)
    → IsByte x
    → IsByte y
    → of_be16
        (byte_at (sanitize_reserved_address (x ∷ y ∷ [])) 0)
        (byte_at (sanitize_reserved_address (x ∷ y ∷ [])) 1)
      < 0xfffe
unfolding sanitize_reserved_address
short_below x y hx hy = elim (Bool-cases (is_reserved (x ∷ y ∷ []))) [
  | inl taken ↦
      let first : x ≡ 0xff = reserved_first x (y ∷ []) taken in
      rw (taken, first) (omega (arith, of_be16_sum 0x7f y (omega arith) hy))
  | inr free ↦ rw free (free_below free)
]
  where
    free_below : is_reserved (x ∷ y ∷ []) ≡ false → of_be16 x y < 0xfffe
    free_below e = unfold is_reserved in ground (arith, of_be16_sum x y hx hy)

long_reserved : (addr : Bytes) → length addr ≡ 8 → is_reserved addr ≡ all_ff addr
unfolding is_reserved
long_reserved addr e = rw e

-- Addresses of the right lengths that no receiver takes for a reserved one.
pub record IsUsable (a : MacAddresses) : Type 0 where
  pub short : a.destination_short < 0xfffe
  pub long : length a.source_long ≡ 8
  pub long_free : all_ff a.source_long ≡ false
  pub source : length a.key_source ≡ 4

module _ (crypto : CryptoProvider) where
  -- Addresses that are derived can be used: the short one is below 0xfffe, which is broadcast or
  -- unassigned, the long one has 8 bytes that are not all 0xff, and the key source 4 bytes.
  pub derive_addresses-IsUsable :
      (mupsk2 : Bytes) (sts_index0 : ℕ) (a : MacAddresses)
      → derive_addresses crypto mupsk2 sts_index0 ≡ ok a
      → IsUsable a
  unfolding derive_addresses kdf108
  derive_addresses-IsUsable mupsk2 sts_index0 a e =
      let (uad, p, q) = >>=-eq-ok (kdf108 crypto mupsk2 1 label_uad (be32 sts_index0) 128) _ e in
      let (sixteen, bytes) = crypto.aes_cmac-IsBlock mupsk2 _ uad p in
      let at : (i : ℕ) → IsByte (byte_at uad i) = λ i. byte_at-IsByte uad i bytes in
      let source : Bytes = take 8 (drop 6 uad) in
      let eight : length source ≡ 8 =
        omega (arith, length-take 8 (drop 6 uad), length-drop 6 uad) in
      let same : length (sanitize_reserved_address source) ≡ 8 = length-sanitize source ∙ eight in
      subst IsUsable (ok-injective q) (record {
        short = short_below (byte_at uad 4) (byte_at uad 5) (at 4) (at 5);
        long = same;
        long_free =
            sym (long_reserved (sanitize_reserved_address source) same)
            ∙ sanitize-not_reserved source (omega (arith, eight));
        source = refl;
      })
