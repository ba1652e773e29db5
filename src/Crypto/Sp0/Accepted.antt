-- ===== src/Crypto/Sp0/Accepted.antt =====
-- What `encryptPayload` and `decryptPayload` have done when they return a length.
use aliro_ccc_core.Base.{
  ℕ, ◌+◌, ◌-◌, ◌≤◌, ◌≡◌, refl, sym, ap, ◌∙◌, subst, inl, inr, Bool-cases, ◌++◌, arith, ltb, length,
  take, drop, length-take, length-drop, take-length_append, take-append-drop, take_all,
}
use aliro_ccc_core.Base.Words.{Bytes}
use aliro_ccc_core.Core.{Result, ok, err, StatusCode, Result-cases}
use aliro_ccc_core.Crypto.Provider.{CryptoProvider}
use aliro_ccc_core.Crypto.Sp0.{
  xor_blocks, a_block, compute_cbc_mac, apply_ctr_stream, encrypt_payload, encrypt_finish,
  decrypt_payload, decrypt_finish,
}
use aliro_ccc_core.Crypto.Sp0.Stream.{
  Ciphered, Ciphered-length, Ciphered-symm, stream_ciphers, stream_cases,
}
use aliro_ccc_core.Crypto.Sp0.Sealing.{
  mic_diff-eq-zero, Sealed, encrypt_seals, decrypt_runs, finish_plain, check_mic_ok, length-Sealed,
  length-mic, nonce,
}

module _ (crypto : CryptoProvider) (key address : Bytes) (counter : ℕ) (header : Bytes) where
  accepted :
      (plain sealed output out s0 : Bytes) (n m : ℕ)
      → length plain ≡ n
      → n ≤ length output
      → length sealed ≡ n + 8
      → crypto.aes128_ecb_encrypt key
          (a_block crypto key (nonce crypto key address counter header) 0)
        ≡ ok s0
      → Ciphered crypto key (nonce crypto key address counter header) 1 (take n sealed) plain
      → decrypt_finish crypto key
          (nonce crypto key address counter header)
          header
          n
          (take 8 (drop n sealed))
          output
          (ok s0, plain ++ drop (length plain) (take n output))
        ≡ (ok m, out)
      → (m ≡ n)
        × (out ≡ plain ++ drop n output)
        × Sealed crypto key address counter header plain sealed
  accepted plain sealed output out s0 n m e le long f d w =
      let (same, kept, (mac, t, z)) =
        check_mic_ok crypto key address counter header n m s0 (take 8 (drop n sealed))
          (plain ++ drop n output) out
          (compute_cbc_mac crypto key (nonce crypto key address counter header) header plain)
          (sym (finish_plain crypto key address counter header plain _ output s0 n e le) ∙ w) in
      let mic : Bytes = xor_blocks (take 8 mac) (take 8 s0) in
      let received : length (drop n sealed) ≡ 8 = omega (arith, length-drop n sealed) in
      let found : take 8 (drop n sealed) ≡ drop n sealed =
        take_all 8 (drop n sealed) (omega (arith, received)) in
      let equal : mic ≡ drop n sealed =
        (mic_diff-eq-zero 0 mic (drop n sealed)
          (length-mic crypto key address counter header mac s0 plain f t ∙ sym received)
          (rw found at z)).1 in
      (
        same,
        kept,
        record {
          s0 = s0;
          mac = mac;
          cipher = take n sealed;
          first = f;
          tag = t;
          ciphered = Ciphered-symm crypto key (nonce crypto key address counter header) d;
          image = sym (rw equal (take-append-drop n sealed));
        },
      )

  decrypt_guards :
      (sealed output out : Bytes) (m : ℕ)
      → decrypt_payload crypto key address counter header sealed output ≡ (ok m, out)
      → (8 ≤ length sealed) × (length sealed - 8 ≤ length output)
  unfolding decrypt_payload
  decrypt_guards sealed output out m w = elim (Bool-cases (ltb (length sealed) 8)) [
    | inl short ↦ cc (rw (short, decrypt_payload) at w)
    | inr long ↦ elim (Bool-cases (ltb (length output) (length sealed - 8))) [
      | inl small ↦ cc (rw (long, small, decrypt_payload) at w)
      | inr large ↦ (ground arith, ground arith)
    ]
  ]

  finish_err :
      (n : ℕ) (received output : Bytes) (x : StatusCode) (p : Result Bytes × Bytes)
      → p.0 ≡ err x
      → (decrypt_finish crypto key
          (nonce crypto key address counter header)
          header
          n
          received
          output
          p).0
        ≡ err x
  unfolding decrypt_finish
  finish_err n received output x (err y, plain) e = ground arith
  finish_err n received output x (ok s, plain) e = cc

  -- `decrypt_payload` accepts nothing but what CCM makes of the plaintext that it returns.
  pub decrypt_accepts :
      (sealed output out : Bytes) (m : ℕ)
      → decrypt_payload crypto key address counter header sealed output ≡ (ok m, out)
      → (plain : Bytes) × Sealed crypto key address counter header plain sealed
        × (m ≡ length plain)
        × (out ≡ plain ++ drop (length plain) output)
        × (length sealed ≡ length plain + 8)
  decrypt_accepts sealed output out m w =
      let (eight, room) = decrypt_guards sealed output out m w in
      let n : ℕ = length sealed - 8 in
      let long : length sealed ≡ n + 8 = omega arith in
      let finished =
        sym (decrypt_runs crypto key address counter header sealed output n long room) ∙ w in
      let front : length (take n sealed) ≤ length (take n output) =
        omega (arith, length-take n sealed, length-take n output) in
      elim (stream_cases crypto key (nonce crypto key address counter header) (take n sealed)
        (take n output) front) [
          | inr (x, e) ↦ cc (
              sym (
                finish_err n (take 8 (drop n sealed)) output x
                  (apply_ctr_stream crypto key (nonce crypto key address counter header)
                    (take n sealed) (take n output))
                  e)
              ∙ ap (λ (r : Result ℕ × Bytes). r.0) finished)
          | inl (s0, plain, f, d) ↦
              let same : length plain ≡ n =
                Ciphered-length crypto key (nonce crypto key address counter header) d
                ∙ omega (arith, length-take n sealed) in
              let (count, kept, seal) = accepted plain sealed output out s0 n m same room long f d (
                rw
                  (stream_ciphers crypto key (nonce crypto key address counter header)
                    (take n output) s0 f d front)
                  at finished) in
              (plain, seal, omega (arith, count, same), rw same kept, omega (arith, long, same))
        ]

  seal_err :
      (n : ℕ) (mac output : Bytes) (x : StatusCode) (p : Result Bytes × Bytes)
      → p.0 ≡ err x
      → (encrypt_finish crypto key n mac output p).0 ≡ err x
  unfolding encrypt_finish
  seal_err n mac output x (err y, stream) e = ground arith
  seal_err n mac output x (ok s, stream) e = cc

  encrypt_guard :
      (plain output out : Bytes) (n : ℕ)
      → encrypt_payload crypto key address counter header plain output ≡ (ok n, out)
      → (length plain + 8 ≤ length output)
        × ((mac : Bytes) × (compute_cbc_mac crypto key
                (nonce crypto key address counter header)
                header
                plain
              ≡ ok mac)
            × (encrypt_finish crypto key (length plain) mac output (
                  apply_ctr_stream crypto key
                    (nonce crypto key address counter header)
                    plain
                    (take (length plain) output))
                ≡ (ok n, out)))
  unfolding encrypt_payload
  encrypt_guard plain output out n w = elim (Bool-cases (ltb (length output) (length plain + 8))) [
    | inl small ↦ cc (rw (small, encrypt_payload) at w)
    | inr large ↦
        elim (Result-cases
          (compute_cbc_mac crypto key (nonce crypto key address counter header) header plain)) [
            | inr (x, t) ↦ cc (rw (large, t, encrypt_payload) at w)
            | inl (mac, t) ↦ (ground arith, (mac, t, rw (large, t, encrypt_payload) at w))
          ]
  ]

  pub encrypt_accepts :
      (plain output out : Bytes) (n : ℕ)
      → encrypt_payload crypto key address counter header plain output ≡ (ok n, out)
      → (n ≡ length plain + 8) × Sealed crypto key address counter header plain (take n out)
  encrypt_accepts plain output out n w =
      let (room, (mac, t, finished)) = encrypt_guard plain output out n w in
      let fits : length plain ≤ length (take (length plain) output) =
        omega (arith, length-take (length plain) output) in
      elim (stream_cases crypto key (nonce crypto key address counter header) plain
        (take (length plain) output) fits) [
          | inr (x, e) ↦ cc (
            finished,
            seal_err (length plain) mac output x
                (apply_ctr_stream crypto key (nonce crypto key address counter header) plain
                  (take (length plain) output))
                e,
          )
          | inl (s0, cipher, f, d) ↦
              let sealed : Bytes = cipher ++ xor_blocks (take 8 mac) (take 8 s0) in
              let v : Sealed crypto key address counter header plain sealed = record {
                s0 = s0;
                mac = mac;
                cipher = cipher;
                first = f;
                tag = t;
                ciphered = d;
                image = refl;
              } in
              let whole : (ok (length plain + 8), sealed ++ drop (length plain + 8) output)
                  ≡ (ok n, out) =
                sym (encrypt_seals crypto key address counter header plain output v room) ∙ w in
              let count : length plain + 8 ≡ n = cc (ap (λ p. p.0) whole) in
              let front : take n out ≡ sealed =
                rw
                  (
                    ← count,
                    ← ap (λ p. p.1) whole,
                    ← length-Sealed crypto key address counter header v,
                  )
                  (take-length_append sealed (drop (length sealed) output)) in
              (sym count, subst (Sealed crypto key address counter header plain) (sym front) v)
        ]
