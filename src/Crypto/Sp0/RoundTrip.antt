-- ===== src/Crypto/Sp0/RoundTrip.antt =====
-- `encryptPayload` and `decryptPayload` undo each other, and a frame that fails is wiped.
use aliro_ccc_core.Base.{
  ℕ, ◌≤◌, ◌≡◌, ◌≢◌, refl, sym, ap, ◌∙◌, false, ◌++◌, arith, ◌==◌, length, take, drop, replicate,
  length-append, length-take, length-drop, take-length_append, drop-length_append, take_all,
}
use aliro_ccc_core.Base.Words.{Bytes}
use aliro_ccc_core.Core.{ok, err, authentication_failed}
use aliro_ccc_core.Crypto.Provider.{CryptoProvider}
use aliro_ccc_core.Crypto.Sp0.{xor_blocks, mic_diff, encrypt_payload, decrypt_payload, check_mic}
use aliro_ccc_core.Crypto.Sp0.Stream.{Ciphered-length, Ciphered-symm, stream_ciphers}
use aliro_ccc_core.Crypto.Sp0.Sealing.{
  mic_diff-eq-zero, different, Sealed, encrypt_seals, decrypt_runs, finish_plain, decrypt_opens,
  length-mic, nonce,
}
use aliro_ccc_core.Crypto.Sp0.Accepted.{decrypt_accepts, encrypt_accepts}

module _ (crypto : CryptoProvider) (key address : Bytes) (counter : ℕ) (header : Bytes) where
  -- Whatever was encrypted decrypts to itself, in a buffer of any content that is large enough.
  pub decrypt_payload-encrypt_payload :
      (plain output out output' : Bytes) (n : ℕ)
      → encrypt_payload crypto key address counter header plain output ≡ (ok n, out)
      → length plain ≤ length output'
      → decrypt_payload crypto key address counter header (take n out) output'
        ≡ (ok (length plain), plain ++ drop (length plain) output')
  decrypt_payload-encrypt_payload plain output out output' n e le =
      decrypt_opens crypto key address counter header plain (take n out) output'
        (encrypt_accepts crypto key address counter header plain output out n e).1 le

  -- Whatever `decrypt_payload` accepts is what `encrypt_payload` makes of the plaintext.
  pub encrypt_payload-decrypt_payload :
      (sealed output out output' : Bytes) (m : ℕ)
      → decrypt_payload crypto key address counter header sealed output ≡ (ok m, out)
      → length sealed ≤ length output'
      → encrypt_payload crypto key address counter header (take m out) output'
        ≡ (ok (length sealed), sealed ++ drop (length sealed) output')
  encrypt_payload-decrypt_payload sealed output out output' m e le =
      let (plain, v, count, kept, long) =
        decrypt_accepts crypto key address counter header sealed output out m e in
      let front : take m out ≡ plain =
        rw (kept, count) (take-length_append plain (drop (length plain) output)) in
      rw (front, long)
        (encrypt_seals crypto key address counter header plain output' v (omega (arith, long, le)))

  -- With any other MIC behind the ciphertext the frame is refused and the output buffer is wiped.
  pub decrypt_payload_tampered :
      (plain sealed mic output : Bytes)
      → Sealed crypto key address counter header plain sealed
      → length mic ≡ 8
      → mic ≢ drop (length plain) sealed
      → length plain ≤ length output
      → decrypt_payload crypto key address counter header (take (length plain) sealed ++ mic) output
        ≡ (err authentication_failed, replicate (length output) 0)
  unfolding check_mic
  decrypt_payload_tampered plain sealed mic output v eight other le =
      let n = length plain in
      let real : Bytes = xor_blocks (take 8 v.mac) (take 8 v.s0) in
      let same : length v.cipher ≡ n =
        Ciphered-length crypto key (nonce crypto key address counter header) v.ciphered in
      let front : take n sealed ≡ v.cipher =
        rw (v.image, ← same) (take-length_append v.cipher real) in
      let back : drop n sealed ≡ real = rw (v.image, ← same) (drop-length_append v.cipher real) in
      let front' : take n (v.cipher ++ mic) ≡ v.cipher =
        rw (← same) (take-length_append v.cipher mic) in
      let back' : drop n (v.cipher ++ mic) ≡ mic = rw (← same) (drop-length_append v.cipher mic) in
      let whole : take 8 mic ≡ mic = take_all 8 mic (omega arith) in
      let differs : (mic_diff 0 real mic == 0) ≡ false = different (mic_diff 0 real mic) (λ z.
        other (
          sym (
            rw back (
              (mic_diff-eq-zero 0 real mic
                (length-mic crypto key address counter header v.mac v.s0 plain v.first v.tag
                  ∙ sym eight)
                z).1)))) in
      rw front (
        decrypt_runs crypto key address counter header (v.cipher ++ mic) output n
          (length-append v.cipher mic ∙ omega (arith, same, eight)) le
        ∙ rw
            (
              front',
              back',
              whole,
              stream_ciphers crypto key (nonce crypto key address counter header) (take n output)
                  v.s0 v.first
                  (Ciphered-symm crypto key (nonce crypto key address counter header) v.ciphered)
                  (omega (arith, length-take n output)),
            )
            (finish_plain crypto key address counter header plain mic output v.s0 n refl le
              ∙ rw (v.tag, check_mic, differs)
                  (ap (λ k. (err authentication_failed, replicate k 0))
                    (length-append plain (drop (length plain) output)
                      ∙ omega (arith, length-drop (length plain) output, le)))))
