-- ===== src/Crypto/Sp0.antt =====
-- src/crypto/Sp0SecurityEngine.cpp: AES-CCM* of SP0 frames, with an 8-byte MIC. A loop over a span
-- takes what is left of the span; an output buffer is returned as the code leaves it.
pub mod Blocks
pub mod Stream
pub mod Tag
pub mod Sealing
pub mod Accepted
pub mod RoundTrip
use aliro_ccc_core.Base.{
  ℕ, zero, suc, ◌+◌, ◌-◌, Bool, not, List, [], ◌∷◌, ◌++◌, ltb, ◌==◌, if◌then◌else◌, length, take,
  drop, replicate, write, min, bit_or, bit_xor,
}
use aliro_ccc_core.Base.Words.{Bytes, u8, u16, byte_at, be16, be32, ◌>>>◌}
use aliro_ccc_core.Core.{
  Result, ok, err, ◌>>=◌, buffer_overflow, malformed_frame, authentication_failed,
}
use aliro_ccc_core.Crypto.Provider.{CryptoProvider}

abbrev pub mic_length : ℕ
mic_length = 8

abbrev pub nonce_length : ℕ
nonce_length = 13

abbrev pub security_level : ℕ
security_level = 0x06

-- Byte by byte, as far as both go.
unfoldable pub xor_blocks : Bytes → Bytes → Bytes
xor_blocks [] ys = []
xor_blocks (x ∷ xs) [] = []
xor_blocks (x ∷ xs) (y ∷ ys) = bit_xor x y ∷ xor_blocks xs ys

unfoldable pub format_nonce : Bytes → ℕ → Bytes
format_nonce src_long_address counter = src_long_address ++ (be32 counter ++ (security_level ∷ []))

-- At most 16 bytes in a block of zeros.
abbrev pub block_of : Bytes → Bytes
block_of bs = write 0 bs (replicate 16 0)

-- `diff` of the MIC comparison, over the bytes that are left.
unfoldable pub mic_diff : ℕ → Bytes → Bytes → ℕ
mic_diff diff [] ys = diff
mic_diff diff (x ∷ xs) [] = diff
mic_diff diff (x ∷ xs) (y ∷ ys) = mic_diff (bit_or diff (bit_xor x y)) xs ys

module _ (crypto : CryptoProvider) (key : Bytes) where
  -- `while (offset < size)`: each round takes 16 bytes at most. `Tag.mac_blocks-eq-chain` shows that
  -- the length of the span is fuel enough.
  unfoldable pub mac_blocks : ℕ → Bytes → Bytes → Result Bytes
  mac_blocks zero mac rest = ok mac
  mac_blocks (suc fuel) mac rest =
      let next : Result Bytes = (do
        mac' ← crypto.aes128_ecb_encrypt key (xor_blocks mac (block_of (take 16 rest)))
        mac_blocks fuel mac' (drop 16 rest)) in
      if length rest == 0 then ok mac else next

  -- The additional data: its length and 14 bytes in the first block, 16 in the others.
  unfoldable pub mac_aad : Bytes → Bytes → Result Bytes
  unfolding mac_blocks
  mac_aad mac aad = if length aad == 0 then ok mac else do
    mac' ←
        crypto.aes128_ecb_encrypt key (xor_blocks mac (block_of (be16 (length aad) ++ take 14 aad)))
    mac_blocks (length aad) mac' (drop 14 aad)

  unfoldable pub compute_cbc_mac : Bytes → Bytes → Bytes → Result Bytes
  unfolding mac_aad mac_blocks
  compute_cbc_mac nonce aad payload = do
    mac0 ← crypto.aes128_ecb_encrypt key (0x59 ∷ (nonce ++ be16 (length payload)))
    mac1 ← mac_aad mac0 aad
    mac_blocks (length payload) mac1 payload

  abbrev pub a_block : Bytes → ℕ → Bytes
  a_block nonce counter = 0x01 ∷ (nonce ++ be16 counter)

  -- The loop of `applyCtrStream` with the output at `offset`; the second part is the output buffer.
  unfoldable pub ctr_loop : ℕ → Bytes → ℕ → Bytes → ℕ → Bytes → Result (Unit {0}) × Bytes
  ctr_loop zero nonce counter input offset output = (ok tt, output)
  ctr_loop (suc fuel) nonce counter input offset output =
      let next : Result (Unit {0}) × Bytes =
        elim (crypto.aes128_ecb_encrypt key (a_block nonce counter)) [
          | ok s ↦
              ctr_loop fuel nonce (u16 (counter + 1)) (drop 16 input)
                (offset + min (length input) 16)
                (write offset (xor_blocks (take 16 input) s) output)
          | err e ↦ (err e, output)
        ] in
      if length input == 0 then (ok tt, output) else next

  -- `outS0`, or the error, with the output buffer.
  unfoldable pub apply_ctr_stream : Bytes → Bytes → Bytes → Result Bytes × Bytes
  unfolding ctr_loop
  apply_ctr_stream nonce input output = elim (crypto.aes128_ecb_encrypt key (a_block nonce 0)) [
    | err e ↦ (err e, output)
    | ok s0 ↦
        let (r, output') = ctr_loop (length input) nonce 1 input 0 output in
        ((r >>= λ _. ok s0), output')
  ]

  -- `encryptPayload` from the return of `applyCtrStream` on: the encrypted MIC behind the ciphertext.
  unfoldable pub encrypt_finish : ℕ → Bytes → Bytes → Result Bytes × Bytes → Result ℕ × Bytes
  encrypt_finish n mac output (err e, stream) = (err e, write 0 stream output)
  encrypt_finish n mac output (ok s0, stream) =
      (ok (n + mic_length), write n (xor_blocks (take 8 mac) (take 8 s0)) (write 0 stream output))

  unfoldable pub encrypt_payload : Bytes → ℕ → Bytes → Bytes → Bytes → Result ℕ × Bytes
  unfolding compute_cbc_mac apply_ctr_stream format_nonce encrypt_finish
  encrypt_payload src_long_address counter header plaintext output =
      let nonce = format_nonce src_long_address counter in
      let n = length plaintext in
      if ltb (length output) (n + mic_length)
      then (err buffer_overflow, output)
      else elim (compute_cbc_mac nonce header plaintext) [
        | err e ↦ (err e, output)
        | ok mac ↦ encrypt_finish n mac output (apply_ctr_stream nonce plaintext (take n output))
      ]

  -- The end of `decryptPayload`: the comparison of the MIC, once the MAC is there. A mismatch wipes
  -- the whole output buffer.
  unfoldable pub check_mic : ℕ → Bytes → Bytes → Bytes → Result Bytes → Result ℕ × Bytes
  unfolding mic_diff
  check_mic n s0 received output (err e) = (err e, output)
  check_mic n s0 received output (ok mac) =
      if mic_diff 0 (xor_blocks (take 8 mac) (take 8 s0)) received == 0
      then (ok n, output)
      else (err authentication_failed, replicate (length output) 0)

  -- `decryptPayload` from the return of `applyCtrStream` on.
  unfoldable pub decrypt_finish :
      Bytes → Bytes → ℕ → Bytes → Bytes → Result Bytes × Bytes → Result ℕ × Bytes
  unfolding compute_cbc_mac check_mic
  decrypt_finish nonce header n received output (err e, plain) = (err e, write 0 plain output)
  decrypt_finish nonce header n received output (ok s0, plain) =
      check_mic n s0 received (write 0 plain output)
        (compute_cbc_mac nonce header (take n (write 0 plain output)))

  unfoldable pub decrypt_payload : Bytes → ℕ → Bytes → Bytes → Bytes → Result ℕ × Bytes
  unfolding decrypt_finish apply_ctr_stream format_nonce
  decrypt_payload src_long_address counter header ciphertext output =
      let nonce = format_nonce src_long_address counter in
      let n = length ciphertext - mic_length in
      if ltb (length ciphertext) mic_length
      then (err malformed_frame, output)
      else if ltb (length output) n
      then (err buffer_overflow, output)
      else decrypt_finish nonce header n (take 8 (drop n ciphertext)) output
          (apply_ctr_stream nonce (take n ciphertext) (take n output))
