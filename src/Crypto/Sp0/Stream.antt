-- ===== src/Crypto/Sp0/Stream.antt =====
-- `applyCtrStream` without its buffer: the input under the key stream, and that a second run with
-- the same key and nonce takes the stream off again.
use aliro_ccc_core.Base.{
  ℕ, zero, suc, ◌+◌, ◌≤◌, ◌<◌, ◌≡◌, refl, sym, ap, ap₂, ◌∙◌, subst, ◌⊎◌, inl, inr, [], ◌∷◌, ◌++◌,
  arith, length, take, drop, write, min, length-append, length-take, length-drop, append_assoc,
  write-length_append, take-append-drop, drop-drop,
}
use aliro_ccc_core.Base.Words.{Bytes, u16}
use aliro_ccc_core.Core.{ok, err, StatusCode, Result-cases}
use aliro_ccc_core.Crypto.Provider.{CryptoProvider}
use aliro_ccc_core.Crypto.Sp0.{xor_blocks, a_block, ctr_loop, apply_ctr_stream}
use aliro_ccc_core.Crypto.Sp0.Blocks.{
  length-xor_blocks, xor_blocks-cancel, split_block, suc-eq-zero, IsSplit, IsSplit-of,
}

module _ (crypto : CryptoProvider) (key nonce : Bytes) where
  -- The output is the input under the key stream that starts at a counter.
  pub data Ciphered : ℕ → Bytes → Bytes → Type 0 where
    done : {c : ℕ} → Ciphered c [] []
    block :
        {c : ℕ} {input out : Bytes} (s b r rest : Bytes)
        → crypto.aes128_ecb_encrypt key (a_block crypto key nonce c) ≡ ok s
        → IsSplit b r
        → input ≡ b ++ r
        → out ≡ xor_blocks b s ++ rest
        → Ciphered (u16 (c + 1)) r rest
        → Ciphered c input out

  key_block_long :
      (c : ℕ) (s b r : Bytes)
      → crypto.aes128_ecb_encrypt key (a_block crypto key nonce c) ≡ ok s
      → IsSplit b r
      → length b ≤ length s
  key_block_long c s b r e v =
      omega (arith, (crypto.aes128_ecb_encrypt-IsBlock key _ s e).0, v.fits)

  pub Ciphered-length :
      {c : ℕ} {input out : Bytes} → Ciphered c input out → length out ≡ length input
  Ciphered-length done = refl
  Ciphered-length {c} (block s b r rest e v p q d) =
      rw (p, q)
        (length-append (xor_blocks b s) rest
          ∙ ap₂ ◌+◌ (length-xor_blocks b s (key_block_long c s b r e v)) (Ciphered-length d)
          ∙ sym (length-append b r))

  -- The key stream twice is none.
  pub Ciphered-symm : {c : ℕ} {input out : Bytes} → Ciphered c input out → Ciphered c out input
  Ciphered-symm done = done
  Ciphered-symm {c} (block s b r rest e v p q d) =
      let long : length b ≤ length s = key_block_long c s b r e v in
      let same : length (xor_blocks b s) ≡ length b = length-xor_blocks b s long in
      block s (xor_blocks b s) rest r e
        (record {
          some_bytes = omega (arith, v.some_bytes, same);
          fits = omega (arith, v.fits, same);
          full = omega (arith, v.full, same, Ciphered-length d);
        })
        q (rw (xor_blocks-cancel b s long) p) (Ciphered-symm d)

  loop_end :
      (fuel c offset : ℕ) (output : Bytes)
      → ctr_loop crypto key fuel nonce c [] offset output ≡ (ok tt, output)
  unfolding ctr_loop
  loop_end zero c offset output = refl
  loop_end (suc fuel) c offset output = refl

  loop_step :
      (fuel c offset : ℕ) (input output s : Bytes)
      → 0 < length input
      → crypto.aes128_ecb_encrypt key (a_block crypto key nonce c) ≡ ok s
      → ctr_loop crypto key (suc fuel) nonce c input offset output
        ≡ ctr_loop crypto key fuel nonce
            (u16 (c + 1))
            (drop 16 input)
            (offset + min (length input) 16)
            (write offset (xor_blocks (take 16 input) s) output)
  unfolding ctr_loop
  loop_step fuel c offset [] output s h e = absurd (omega arith)
  loop_step fuel c offset (x ∷ input) output s h e = rw (suc-eq-zero (length input), e)

  loop_stop :
      (fuel c offset : ℕ) (input output : Bytes) (x : StatusCode)
      → 0 < length input
      → crypto.aes128_ecb_encrypt key (a_block crypto key nonce c) ≡ err x
      → ctr_loop crypto key (suc fuel) nonce c input offset output ≡ (err x, output)
  unfolding ctr_loop
  loop_stop fuel c offset [] output s h e = absurd (omega arith)
  loop_stop fuel c offset (x ∷ input) output s h e = rw (suc-eq-zero (length input), e)

  -- One block of the loop writes behind what is written, and leaves the rest of the buffer.
  step_output :
      (b r s pre xs : Bytes)
      → IsSplit b r
      → length b ≤ length s
      → length (b ++ r) ≤ length xs
      → write (length pre) (xor_blocks b s) (pre ++ xs)
        ≡ (pre ++ xor_blocks b s) ++ drop (length b) xs
  step_output b r s pre xs v long le =
      let same : length (xor_blocks b s) ≡ length b = length-xor_blocks b s long in
      write-length_append pre (xor_blocks b s) xs (omega (arith, same, length-append b r))
      ∙ rw same (sym (append_assoc pre (xor_blocks b s) (drop (length b) xs)))

  next_offset :
      (b r s pre : Bytes)
      → IsSplit b r
      → length b ≤ length s
      → length pre + min (length (b ++ r)) 16 ≡ length (pre ++ xor_blocks b s)
  next_offset b r s pre v long = omega (
    arith,
    length-append b r,
    length-append pre (xor_blocks b s),
    length-xor_blocks b s long,
    v.fits,
    v.full,
  )

  split_step :
      (fuel c : ℕ) (b r s pre xs : Bytes)
      → IsSplit b r
      → crypto.aes128_ecb_encrypt key (a_block crypto key nonce c) ≡ ok s
      → length (b ++ r) ≤ length xs
      → ctr_loop crypto key (suc fuel) nonce c (b ++ r) (length pre) (pre ++ xs)
        ≡ ctr_loop crypto key fuel nonce
            (u16 (c + 1))
            r
            (length (pre ++ xor_blocks b s))
            ((pre ++ xor_blocks b s) ++ drop (length b) xs)
  split_step fuel c b r s pre xs v e le =
      let long : length b ≤ length s = key_block_long c s b r e v in
      let parts = split_block b r v.fits v.full in
      loop_step fuel c (length pre) (b ++ r) (pre ++ xs) s
        (omega (arith, length-append b r, v.some_bytes)) e
      ∙ rw (parts.0, parts.1, next_offset b r s pre v long, step_output b r s pre xs v long le)

  regroup :
      (x rest pre xs : Bytes) (n : ℕ)
      → length x ≡ n
      → (pre ++ x) ++ (rest ++ drop (length rest) (drop n xs))
        ≡ pre ++ ((x ++ rest) ++ drop (length (x ++ rest)) xs)
  regroup x rest pre xs n e =
      append_assoc pre x _
      ∙ ap (λ t. pre ++ t)
          (sym (append_assoc x rest _)
            ∙ ap (λ t. (x ++ rest) ++ t)
                (drop-drop (length rest) n xs
                  ∙ ap (λ k. drop k xs)
                      (ap (λ k. k + length rest) (sym e) ∙ sym (length-append x rest))))

  pub loop_ciphers :
      {c : ℕ} {input out : Bytes} (fuel : ℕ) (pre xs : Bytes)
      → Ciphered c input out
      → length input ≤ fuel
      → length input ≤ length xs
      → ctr_loop crypto key fuel nonce c input (length pre) (pre ++ xs)
        ≡ (ok tt, pre ++ (out ++ drop (length out) xs))
  loop_ciphers {c} fuel pre xs done h le = loop_end fuel c (length pre) (pre ++ xs)
  loop_ciphers zero pre xs (block s b r rest e v p q d) h le =
      absurd (omega (arith, ap length p, length-append b r, v.some_bytes))
  loop_ciphers {c} {input} {out} (suc fuel) pre xs (block s b r rest e v p q d) h le =
      let long : length b ≤ length s = key_block_long c s b r e v in
      let same : length (xor_blocks b s) ≡ length b = length-xor_blocks b s long in
      let sum : length input ≡ length b + length r = ap length p ∙ length-append b r in
      rw (p, q)
        (split_step fuel c b r s pre xs v e (omega (arith, sum, length-append b r))
          ∙ loop_ciphers fuel (pre ++ xor_blocks b s) (drop (length b) xs) d
              (omega (arith, sum, v.some_bytes)) (omega (arith, sum, length-drop (length b) xs))
          ∙ ap (λ (t : Bytes). (ok tt, t)) (regroup (xor_blocks b s) rest pre xs (length b) same))

  -- What became of a block, from what became of the rest.
  cases_split :
      (fuel c : ℕ) (b r s pre xs : Bytes)
      → IsSplit b r
      → crypto.aes128_ecb_encrypt key (a_block crypto key nonce c) ≡ ok s
      → length (b ++ r) ≤ length xs
      → ((out : Bytes) × Ciphered (u16 (c + 1)) r out)
        ⊎ ((x : StatusCode) × ((ctr_loop crypto key fuel nonce
                (u16 (c + 1))
                r
                (length (pre ++ xor_blocks b s))
                ((pre ++ xor_blocks b s) ++ drop (length b) xs)).0
              ≡ err x))
      → ((out : Bytes) × Ciphered c (b ++ r) out)
        ⊎ ((x : StatusCode) × ((ctr_loop crypto key
                (suc fuel)
                nonce
                c
                (b ++ r)
                (length pre)
                (pre ++ xs)).0
              ≡ err x))
  cases_split fuel c b r s pre xs v e le (inl (out, d)) =
      inl (xor_blocks b s ++ out, block s b r out e v refl refl d)
  cases_split fuel c b r s pre xs v e le (inr (x, w)) =
      inr (x, rw (split_step fuel c b r s pre xs v e le) w)

  pub loop_cases :
      (fuel c : ℕ) (input pre xs : Bytes)
      → length input ≤ fuel
      → length input ≤ length xs
      → ((out : Bytes) × Ciphered c input out)
        ⊎ ((x : StatusCode) × ((ctr_loop crypto key fuel nonce c input (length pre) (pre ++ xs)).0
              ≡ err x))
  loop_cases fuel c [] pre xs h le = inl ([], done)
  loop_cases zero c (x ∷ input) pre xs h le = absurd (omega arith)
  loop_cases (suc fuel) c (x ∷ input) pre xs h le =
      elim (Result-cases (crypto.aes128_ecb_encrypt key (a_block crypto key nonce c))) [
        | inr (code, e) ↦
            inr (
              code,
              rw (loop_stop fuel c (length pre) (x ∷ input) (pre ++ xs) code (omega arith) e),
            )
        | inl (s, e) ↦
            let input' : Bytes = x ∷ input in
            let b = take 16 input' in
            let r = drop 16 input' in
            let whole : b ++ r ≡ input' = take-append-drop 16 input' in
            let v : IsSplit b r = IsSplit-of input' (omega arith) in
            subst Answer whole (
              cases_split fuel c b r s pre xs v e (subst (λ i. length i ≤ length xs) (sym whole) le)
                (loop_cases fuel (u16 (c + 1)) r (pre ++ xor_blocks b s) (drop (length b) xs)
                  (omega (arith, length-drop 16 input'))
                  (omega (
                    arith,
                    length-drop (length b) xs,
                    length-take 16 input',
                    length-drop 16 input',
                  ))))
      ]
    where
      Answer : Bytes → Type 0
      Answer i =
          ((out : Bytes) × Ciphered c i out)
          ⊎ ((x : StatusCode) × ((ctr_loop crypto key (suc fuel) nonce c i (length pre)
                  (pre ++ xs)).0
                ≡ err x))

  pub stream_ciphers :
      {input out : Bytes} (output s0 : Bytes)
      → crypto.aes128_ecb_encrypt key (a_block crypto key nonce 0) ≡ ok s0
      → Ciphered 1 input out
      → length input ≤ length output
      → apply_ctr_stream crypto key nonce input output ≡ (ok s0, out ++ drop (length out) output)
  unfolding apply_ctr_stream
  stream_ciphers {input} {out} output s0 e d le =
      rw (e, apply_ctr_stream, loop_ciphers (length input) [] output d (omega arith) le)

  pub stream_cases :
      (input output : Bytes)
      → length input ≤ length output
      → ((s0 out : Bytes) × (crypto.aes128_ecb_encrypt key (a_block crypto key nonce 0) ≡ ok s0)
          × Ciphered 1 input out)
        ⊎ ((x : StatusCode) × ((apply_ctr_stream crypto key nonce input output).0 ≡ err x))
  unfolding apply_ctr_stream
  stream_cases input output le =
      elim (Result-cases (crypto.aes128_ecb_encrypt key (a_block crypto key nonce 0))) [
        | inr (x, e) ↦ inr (x, rw (e, apply_ctr_stream))
        | inl (s0, e) ↦ elim (loop_cases (length input) 1 input [] output (omega arith) le) [
          | inl (out, d) ↦ inl (s0, out, e, d)
          | inr (x, w) ↦ inr (x, rw (e, apply_ctr_stream, w))
        ]
      ]
