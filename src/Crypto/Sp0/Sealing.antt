-- ===== src/Crypto/Sp0/Sealing.antt =====
-- Frames that CCM seals: both operations of the engine run on one.
use aliro_ccc_core.Base.{
  ℕ, zero, suc, ◌+◌, ◌-◌, ◌≤◌, ◌≡◌, ◌≢◌, refl, sym, ap, ap₂, ◌∙◌, false, [], ◌∷◌, ◌++◌, arith, ◌==◌,
  length, take, drop, write, bit_or, bit_xor, length-append, length-take, length-drop, append-nil,
  append_assoc, write-zero, write-length_append, take-length_append, drop-length_append, drop-drop,
  take_all, le→ltb, bit_xor_self, bit_xor-eq-zero, bit_or-eq-zero,
}
use aliro_ccc_core.Base.Words.{Bytes}
use aliro_ccc_core.Core.{Result, ok, err}
use aliro_ccc_core.Crypto.Provider.{CryptoProvider}
use aliro_ccc_core.Crypto.Sp0.{
  xor_blocks, a_block, format_nonce, mic_diff, compute_cbc_mac, apply_ctr_stream, encrypt_payload,
  decrypt_payload, decrypt_finish, check_mic,
}
use aliro_ccc_core.Crypto.Sp0.Stream.{Ciphered, Ciphered-length, Ciphered-symm, stream_ciphers}
use aliro_ccc_core.Crypto.Sp0.Blocks.{length-xor_blocks}
use aliro_ccc_core.Crypto.Sp0.Tag.{length-compute_cbc_mac}

pub mic_diff_refl : (xs : Bytes) → mic_diff 0 xs xs ≡ 0
unfolding mic_diff
mic_diff_refl [] = refl
mic_diff_refl (x ∷ xs) = rw bit_xor_self (mic_diff_refl xs)

-- No difference is found only between equal strings.
pub mic_diff-eq-zero :
    (d : ℕ) (xs ys : Bytes) → length xs ≡ length ys → mic_diff d xs ys ≡ 0 → (d ≡ 0) × (xs ≡ ys)
unfolding mic_diff
mic_diff-eq-zero d [] [] h e = (e, refl)
mic_diff-eq-zero d [] (y ∷ ys) h e = absurd (omega arith)
mic_diff-eq-zero d (x ∷ xs) [] h e = absurd (omega arith)
mic_diff-eq-zero d (x ∷ xs) (y ∷ ys) h e =
    let (z, same) = mic_diff-eq-zero (bit_or d (bit_xor x y)) xs ys (omega arith) e in
    let (zd, zx) = bit_or-eq-zero d (bit_xor x y) z in (zd, ap₂ ◌∷◌ (bit_xor-eq-zero x y zx) same)

pub different : (d : ℕ) → d ≢ 0 → (d == 0) ≡ false
different d h = ground arith

pub drop-length_le : (n : ℕ) (xs : Bytes) → length xs ≤ n → drop n xs ≡ []
drop-length_le zero [] h = refl
drop-length_le zero (x ∷ xs) h = absurd (omega arith)
drop-length_le (suc n) [] h = refl
drop-length_le (suc n) (x ∷ xs) h = drop-length_le n xs (omega arith)

-- The stream that covers the first `n` bytes of the buffer.
pub store_stream :
    (stream output : Bytes) (n : ℕ)
    → length stream ≡ n
    → n ≤ length output
    → write 0 (stream ++ drop (length stream) (take n output)) output ≡ stream ++ drop n output
store_stream stream output n e le =
    ap (λ t. write 0 (stream ++ t) output)
      (drop-length_le (length stream) (take n output) (omega (arith, length-take n output)))
    ∙ ap (λ t. write 0 t output) (append-nil stream)
    ∙ write-zero stream output (omega arith)
    ∙ ap (λ k. stream ++ drop k output) e

pub store_sealed :
    (cipher mic output : Bytes) (n : ℕ)
    → length cipher ≡ n
    → length mic ≡ 8
    → n + 8 ≤ length output
    → write n mic (cipher ++ drop n output) ≡ (cipher ++ mic) ++ drop (n + 8) output
store_sealed cipher mic output n e m le =
    ap (λ k. write k mic (cipher ++ drop n output)) (sym e)
    ∙ write-length_append cipher mic (drop n output) (omega (arith, length-drop n output))
    ∙ sym (append_assoc cipher mic _)
    ∙ ap (λ t. (cipher ++ mic) ++ t) (ap (λ k. drop k (drop n output)) m ∙ drop-drop 8 n output)

module _ (crypto : CryptoProvider) (key address : Bytes) (counter : ℕ) (header : Bytes) where
  abbrev pub nonce : Bytes
  nonce = format_nonce address counter

  -- `sealed` is what CCM makes of `plain` under the key, the nonce and the header.
  pub record Sealed (plain sealed : Bytes) : Type 0 where
    pub s0 : Bytes
    pub mac : Bytes
    pub cipher : Bytes
    pub first : crypto.aes128_ecb_encrypt key (a_block crypto key nonce 0) ≡ ok s0
    pub tag : compute_cbc_mac crypto key nonce header plain ≡ ok mac
    pub ciphered : Ciphered crypto key nonce 1 plain cipher
    pub image : sealed ≡ cipher ++ xor_blocks (take 8 mac) (take 8 s0)

  pub length-mic :
      (mac s0 plain : Bytes)
      → crypto.aes128_ecb_encrypt key (a_block crypto key nonce 0) ≡ ok s0
      → compute_cbc_mac crypto key nonce header plain ≡ ok mac
      → length (xor_blocks (take 8 mac) (take 8 s0)) ≡ 8
  length-mic mac s0 plain f t =
      let a : length mac ≡ 16 = length-compute_cbc_mac crypto key nonce header plain mac t in
      let b : length s0 ≡ 16 = (crypto.aes128_ecb_encrypt-IsBlock key _ s0 f).0 in
      omega (
        arith,
        length-xor_blocks (take 8 mac) (take 8 s0)
            (omega (arith, length-take 8 mac, length-take 8 s0)),
        length-take 8 mac,
      )

  pub length-Sealed :
      {plain sealed : Bytes} → Sealed plain sealed → length sealed ≡ length plain + 8
  length-Sealed {plain} v =
      ap length v.image
      ∙ length-append v.cipher (xor_blocks (take 8 v.mac) (take 8 v.s0))
      ∙ ap₂ ◌+◌ (Ciphered-length crypto key nonce v.ciphered)
          (length-mic v.mac v.s0 plain v.first v.tag)

  pub encrypt_seals :
      (plain output : Bytes) {sealed : Bytes}
      → Sealed plain sealed
      → length plain + 8 ≤ length output
      → encrypt_payload crypto key address counter header plain output
        ≡ (ok (length plain + 8), sealed ++ drop (length plain + 8) output)
  unfolding encrypt_payload
  encrypt_seals plain output v le =
      let n = length plain in
      let fits : length plain ≤ length (take n output) = omega (arith, length-take n output) in
      let same : length v.cipher ≡ n = Ciphered-length crypto key nonce v.ciphered in
      let stream = stream_ciphers crypto key nonce (take n output) v.s0 v.first v.ciphered fits in
      rw (le→ltb (length output) (n + 8) le, v.tag, encrypt_payload, stream)
        (ap (λ (t : Bytes). (ok (n + 8), t))
          (rw (store_stream v.cipher output n same (omega arith), v.image)
            (store_sealed v.cipher _ output n same (length-mic v.mac v.s0 plain v.first v.tag) le)))

  -- `decrypt_payload` behind its two guards.
  pub decrypt_runs :
      (sealed output : Bytes) (n : ℕ)
      → length sealed ≡ n + 8
      → n ≤ length output
      → decrypt_payload crypto key address counter header sealed output
        ≡ decrypt_finish crypto key nonce header n
            (take 8 (drop n sealed))
            output
            (apply_ctr_stream crypto key nonce (take n sealed) (take n output))
  unfolding decrypt_payload
  decrypt_runs sealed output n e le =
      let count : length sealed - 8 ≡ n = omega (arith, e) in
      rw (le→ltb (length sealed) 8 (omega (arith, e)), count, le→ltb (length output) n le)

  pub finish_plain :
      (plain received output s0 : Bytes) (n : ℕ)
      → length plain ≡ n
      → n ≤ length output
      → decrypt_finish crypto key nonce header n received output
          (ok s0, plain ++ drop (length plain) (take n output))
        ≡ check_mic crypto key n s0 received
            (plain ++ drop n output)
            (compute_cbc_mac crypto key nonce header plain)
  unfolding decrypt_finish
  finish_plain plain received output s0 n e le =
      rw (
        store_stream plain output n e le,
        ← e,
        take-length_append plain (drop (length plain) output),
      )

  pub check_mic_ok :
      (n m : ℕ) (s0 received output out : Bytes) (r : Result Bytes)
      → check_mic crypto key n s0 received output r ≡ (ok m, out)
      → (m ≡ n)
        × (out ≡ output)
        × ((mac : Bytes) × (r ≡ ok mac)
            × (mic_diff 0 (xor_blocks (take 8 mac) (take 8 s0)) received ≡ 0))
  unfolding check_mic
  check_mic_ok n m s0 received output out (err e) h = ground arith
  check_mic_ok n m s0 received output out (ok mac) h =
      (ground arith, ground arith, (mac, refl, ground arith))

  pub decrypt_opens :
      (plain sealed output : Bytes)
      → Sealed plain sealed
      → length plain ≤ length output
      → decrypt_payload crypto key address counter header sealed output
        ≡ (ok (length plain), plain ++ drop (length plain) output)
  unfolding check_mic
  decrypt_opens plain sealed output v le =
      let n = length plain in
      let mic : Bytes = xor_blocks (take 8 v.mac) (take 8 v.s0) in
      let same : length v.cipher ≡ n = Ciphered-length crypto key nonce v.ciphered in
      let eight : length mic ≡ 8 = length-mic v.mac v.s0 plain v.first v.tag in
      let front : take n sealed ≡ v.cipher =
        rw (v.image, ← same) (take-length_append v.cipher mic) in
      let back : drop n sealed ≡ mic = rw (v.image, ← same) (drop-length_append v.cipher mic) in
      let no_difference : mic_diff 0 mic (take 8 mic) ≡ 0 =
        rw (take_all 8 mic (omega arith)) (mic_diff_refl mic) in
      decrypt_runs sealed output n (length-Sealed v) le
      ∙ rw
          (
            front,
            back,
            stream_ciphers crypto key nonce (take n output) v.s0 v.first
                (Ciphered-symm crypto key nonce v.ciphered) (omega (arith, length-take n output)),
          )
          (finish_plain plain (take 8 mic) output v.s0 n refl le
            ∙ rw (v.tag, check_mic, no_difference))
