-- ===== src/Crypto/Sp0/Tag.antt =====
-- `computeCbcMac` and the tag of CCM: a chain over the first block, the additional data behind its
-- length, and the payload, each cut into blocks of 16 and padded with zeros.
use aliro_ccc_core.Base.{
  ◌<◌, ◌^◌, ◌%◌, ◌*◌, ◌-◌, ltb, if◌then◌else◌, if-true, lt→ltb, ℕ, false, zero, suc, ◌+◌, ◌/◌, ◌≤◌,
  ◌≡◌, refl, sym, ap, ◌∙◌, List, [], ◌∷◌, ◌++◌, arith, ◌==◌, length, take, drop, length-drop,
}
use aliro_ccc_core.Base.Words.{Bytes, be16, be32}
use aliro_ccc_core.Core.{Result, ok, err, ◌>>=◌, >>=-eq-ok}
use aliro_ccc_core.Crypto.Provider.{CryptoProvider}
use aliro_ccc_core.Crypto.Sp0.{xor_blocks, block_of, mac_blocks, mac_aad, compute_cbc_mac}

blocks_loop : ℕ → Bytes → List Bytes
blocks_loop zero bs = []
blocks_loop (suc n) bs = block_of (take 16 bs) ∷ blocks_loop n (drop 16 bs)

-- As many blocks as it takes.
pub blocks : Bytes → List Bytes
unfolding blocks_loop
blocks bs = blocks_loop ((length bs + 15) / 16) bs

blocks_cons :
    (b : ℕ) (bs : Bytes) → blocks (b ∷ bs) ≡ block_of (take 16 (b ∷ bs)) ∷ blocks (drop 16 (b ∷ bs))
unfolding blocks
blocks_cons b bs =
    ap (λ n. blocks_loop n (b ∷ bs)) {y = suc ((length (drop 16 (b ∷ bs)) + 15) / 16)}
      (omega (arith, length-drop 16 (b ∷ bs)))

-- The additional data in the code's encoding: its length in two bytes; no block if there is none.
coded_blocks : Bytes → List Bytes
unfolding blocks
coded_blocks [] = []
coded_blocks (a ∷ aad) = blocks (be16 (length (a ∷ aad)) ++ (a ∷ aad))

-- RFC 3610, 2.2: the flags of B_0 for a MIC of 8 bytes and a length field of 2. There is 64 if there
-- is additional data.
abbrev pub ccm_flags : Bytes → ℕ
ccm_flags aad = (if length aad == 0 then 0 else 64) + 8 * ((8 - 2) / 2) + (2 - 1)

-- The length of the additional data, in 2, 6 or 10 bytes.
abbrev pub ccm_length : ℕ → Bytes
ccm_length n =
    if ltb n 0xff00
    then be16 n
    else if ltb n (2 ^ 32)
    then 0xff ∷ 0xfe ∷ be32 n
    else 0xff ∷ 0xff ∷ (be32 (n / 2 ^ 32) ++ be32 (n % 2 ^ 32))

-- The blocks of the additional data: none if there is none.
pub aad_blocks : Bytes → List Bytes
unfolding blocks
aad_blocks [] = []
aad_blocks (a ∷ aad) = blocks (ccm_length (length (a ∷ aad)) ++ (a ∷ aad))

aad_blocks-eq-coded_blocks : (aad : Bytes) → length aad < 0xff00 → aad_blocks aad ≡ coded_blocks aad
unfolding aad_blocks coded_blocks
aad_blocks-eq-coded_blocks [] h = refl
aad_blocks-eq-coded_blocks (a ∷ aad) h =
    ap (λ (l : Bytes). blocks (l ++ (a ∷ aad))) (if-true _ _ (lt→ltb (length (a ∷ aad)) 0xff00 h))

ccm_flags_some : (aad : Bytes) → 0 < length aad → ccm_flags aad ≡ 0x59
ccm_flags_some aad h = ground arith

suc-eq-zero : (n : ℕ) → (suc n == 0) ≡ false
suc-eq-zero n = ground arith

>>=-eq :
    {A B : Type 0} (m : Result A) {f g : A → Result B}
    → ((a : A) → f a ≡ g a)
    → (m >>= f) ≡ (m >>= g)
>>=-eq (ok a) h = h a
>>=-eq (err e) h = refl

>>=-assoc :
    {A B C : Type 0} (m : Result A) (f : A → Result B) (g : B → Result C)
    → ((m >>= f) >>= g) ≡ (m >>= λ a. f a >>= g)
>>=-assoc (ok a) f g = refl
>>=-assoc (err e) f g = refl

module _ (crypto : CryptoProvider) (key : Bytes) where
  -- Cipher block chaining from a tag on.
  pub chain : Bytes → List Bytes → Result Bytes
  chain mac [] = ok mac
  chain mac (b ∷ bs) = crypto.aes128_ecb_encrypt key (xor_blocks mac b) >>= λ mac'. chain mac' bs

  -- RFC 3610: B_0, then the additional data, then the payload.
  pub ccm_tag : Bytes → Bytes → Bytes → Result Bytes
  unfolding chain aad_blocks blocks
  ccm_tag nonce aad payload = do
    mac ← crypto.aes128_ecb_encrypt key (ccm_flags aad ∷ (nonce ++ be16 (length payload)))
    chain mac (aad_blocks aad ++ blocks payload)

  -- The same with the code's flags and its encoding of the header's length.
  coded_tag : Bytes → Bytes → Bytes → Result Bytes
  unfolding chain coded_blocks blocks
  coded_tag nonce aad payload = do
    mac ← crypto.aes128_ecb_encrypt key (0x59 ∷ (nonce ++ be16 (length payload)))
    chain mac (coded_blocks aad ++ blocks payload)

  mac_blocks-eq-chain_loop :
      (n fuel : ℕ) (mac rest : Bytes)
      → n ≡ (length rest + 15) / 16
      → length rest ≤ fuel
      → mac_blocks crypto key fuel mac rest ≡ chain mac (blocks_loop n rest)
  unfolding mac_blocks chain blocks_loop
  mac_blocks-eq-chain_loop zero zero mac rest e h = refl
  mac_blocks-eq-chain_loop zero (suc fuel) mac [] e h = refl
  mac_blocks-eq-chain_loop zero (suc fuel) mac (x ∷ rest) e h = absurd (omega arith)
  mac_blocks-eq-chain_loop (suc n) zero mac rest e h = absurd (omega arith)
  mac_blocks-eq-chain_loop (suc n) (suc fuel) mac [] e h = absurd (omega arith)
  mac_blocks-eq-chain_loop (suc n) (suc fuel) mac (x ∷ rest) e h = rw (suc-eq-zero (length rest)) (
      >>=-eq (crypto.aes128_ecb_encrypt key (xor_blocks mac (block_of (take 16 (x ∷ rest)))))
        (λ mac'.
          mac_blocks-eq-chain_loop n fuel mac' (drop 16 (x ∷ rest))
            (omega (arith, length-drop 16 (x ∷ rest))) (omega (arith, length-drop 16 (x ∷ rest)))))

  -- The length of the span is fuel enough for the loop.
  pub mac_blocks-eq-chain :
      (mac rest : Bytes) → mac_blocks crypto key (length rest) mac rest ≡ chain mac (blocks rest)
  unfolding blocks
  mac_blocks-eq-chain mac rest =
      mac_blocks-eq-chain_loop ((length rest + 15) / 16) (length rest) mac rest refl (omega arith)

  chain-append :
      (mac : Bytes) (xs ys : List Bytes)
      → chain mac (xs ++ ys) ≡ (chain mac xs >>= λ mac'. chain mac' ys)
  unfolding chain
  chain-append mac [] ys = refl
  chain-append mac (x ∷ xs) ys =
      >>=-eq (crypto.aes128_ecb_encrypt key (xor_blocks mac x)) (λ mac'. chain-append mac' xs ys)
      ∙ sym (>>=-assoc (crypto.aes128_ecb_encrypt key (xor_blocks mac x)) (λ mac'. chain mac' xs) _)

  mac_aad-eq-chain : (mac aad : Bytes) → mac_aad crypto key mac aad ≡ chain mac (coded_blocks aad)
  unfolding mac_aad coded_blocks
  mac_aad-eq-chain mac [] = unfold chain in refl
  mac_aad-eq-chain mac (a ∷ aad) =
      let front : Bytes = be16 (length (a ∷ aad)) ++ (a ∷ aad) in
      let rest : Bytes = drop 14 (a ∷ aad) in
      rw (suc-eq-zero (length aad), blocks_cons)
        (unfold chain in
          >>=-eq (crypto.aes128_ecb_encrypt key (xor_blocks mac (block_of (take 16 front))))
            (λ mac'.
              unfold blocks in
              mac_blocks-eq-chain_loop ((length rest + 15) / 16) (length (a ∷ aad)) mac' rest refl
                (omega (arith, length-drop 14 (a ∷ aad)))))

  compute_cbc_mac-eq-coded_tag :
      (nonce aad payload : Bytes)
      → compute_cbc_mac crypto key nonce aad payload ≡ coded_tag nonce aad payload
  unfolding compute_cbc_mac coded_tag
  compute_cbc_mac-eq-coded_tag nonce aad payload =
      >>=-eq (crypto.aes128_ecb_encrypt key (0x59 ∷ (nonce ++ be16 (length payload)))) (λ mac0.
        rw (mac_aad-eq-chain mac0 aad) (
          >>=-eq (chain mac0 (coded_blocks aad)) (λ mac. mac_blocks-eq-chain mac payload)
          ∙ sym (chain-append mac0 (coded_blocks aad) (blocks payload))))

  -- For a header of at least 1 and fewer than 65280 bytes `compute_cbc_mac` is the tag of RFC 3610
  -- with a MIC of 8 bytes and a length field of 2, for every cipher, errors included. The RFC wants
  -- fewer than 65536 bytes of payload; of a longer payload's length both take the lower 16 bits.
  pub compute_cbc_mac-eq-ccm_tag :
      (nonce aad payload : Bytes)
      → 0 < length aad
      → length aad < 0xff00
      → compute_cbc_mac crypto key nonce aad payload ≡ ccm_tag nonce aad payload
  unfolding ccm_tag coded_tag
  compute_cbc_mac-eq-ccm_tag nonce aad payload some short =
      compute_cbc_mac-eq-coded_tag nonce aad payload
      ∙ rw (ccm_flags_some aad some, aad_blocks-eq-coded_blocks aad short)

  length-chain :
      (mac out : Bytes) (bs : List Bytes)
      → length mac ≡ 16
      → chain mac bs ≡ ok out
      → length out ≡ 16
  unfolding chain
  length-chain mac out [] h e = ground arith
  length-chain mac out (b ∷ bs) h e =
      let (mac', p, q) = >>=-eq-ok (crypto.aes128_ecb_encrypt key (xor_blocks mac b)) _ e in
      length-chain mac' out bs (crypto.aes128_ecb_encrypt-IsBlock key _ mac' p).0 q

  pub length-compute_cbc_mac :
      (nonce aad payload mac : Bytes)
      → compute_cbc_mac crypto key nonce aad payload ≡ ok mac
      → length mac ≡ 16
  unfolding coded_tag
  length-compute_cbc_mac nonce aad payload mac e =
      let (mac0, p, q) =
        >>=-eq-ok (crypto.aes128_ecb_encrypt key (0x59 ∷ (nonce ++ be16 (length payload)))) _
          (sym (compute_cbc_mac-eq-coded_tag nonce aad payload) ∙ e) in
      length-chain mac0 mac _ (crypto.aes128_ecb_encrypt-IsBlock key _ mac0 p).0 q
