-- ===== src/Crypto/Provider.antt =====
-- include/uwb/crypto/ICryptoProvider.hpp, and src/crypto/MbedTlsCryptoProvider.cpp over Mbed TLS,
-- which is a parameter.
use aliro_ccc_core.Base.{ℕ, ◌*◌, ◌≡◌, Bool, arith, ◌==◌, if◌then◌else◌, length, All}
use aliro_ccc_core.Base.Words.{Bytes, IsByte}
use aliro_ccc_core.Core.{Result, ok, err, crypto_operation_failed, invalid_parameter}

-- A 16-byte span of bytes, as the interface's types have it.
abbrev pub IsBlock : Bytes → Type 0
IsBlock bs = (length bs ≡ 16) × All IsByte bs

-- The operations, and what the types of their output spans say.
pub record CryptoProvider : Type 0 where
  pub aes128_ecb_encrypt : Bytes → Bytes → Result Bytes
  pub aes256_ecb_encrypt : Bytes → Bytes → Result Bytes
  pub aes_cmac : Bytes → Bytes → Result Bytes
  pub aes128_ecb_encrypt-IsBlock :
      (key block out : Bytes) → aes128_ecb_encrypt key block ≡ ok out → IsBlock out
  pub aes_cmac-IsBlock : (key message out : Bytes) → aes_cmac key message ≡ ok out → IsBlock out

pub data CipherType : Type 0 where
  aes_128_ecb aes_256_ecb : CipherType

-- Mbed TLS: each call returns its code, 0 for success, and the ciphertext or the tag.
pub record MbedTls : Type 0 where
  pub aes_setkey_enc : Bytes → ℕ → ℕ
  pub aes_crypt_ecb : Bytes → Bytes → ℕ × Bytes
  pub cipher_info_from_type : CipherType → Bool
  pub cipher_cmac : CipherType → Bytes → ℕ → Bytes → ℕ × Bytes
  pub aes_crypt_ecb-IsBlock : (key block : Bytes) → IsBlock (aes_crypt_ecb key block).1
  pub cipher_cmac-IsBlock :
      (c : CipherType) (key : Bytes) (bits : ℕ) (message : Bytes)
      → IsBlock (cipher_cmac c key bits message).1

module _ (tls : MbedTls) where
  aes_ecb : ℕ → Bytes → Bytes → Result Bytes
  aes_ecb bits key plaintext =
      if tls.aes_setkey_enc key bits == 0
      then (if (tls.aes_crypt_ecb key plaintext).0 == 0
          then ok (tls.aes_crypt_ecb key plaintext).1
          else err crypto_operation_failed)
      else err crypto_operation_failed

  unfoldable pub aes128_ecb : Bytes → Bytes → Result Bytes
  unfolding aes_ecb
  aes128_ecb = aes_ecb 128

  unfoldable pub aes256_ecb : Bytes → Bytes → Result Bytes
  unfolding aes_ecb
  aes256_ecb = aes_ecb 256

  cmac_with : CipherType → Bytes → Bytes → Result Bytes
  cmac_with cipher key message =
      if tls.cipher_info_from_type cipher
      then (if (tls.cipher_cmac cipher key (length key * 8) message).0 == 0
          then ok (tls.cipher_cmac cipher key (length key * 8) message).1
          else err crypto_operation_failed)
      else err crypto_operation_failed

  unfoldable pub cmac : Bytes → Bytes → Result Bytes
  unfolding cmac_with
  cmac key message =
      if length key == 16
      then cmac_with aes_128_ecb key message
      else if length key == 32
      then cmac_with aes_256_ecb key message
      else err invalid_parameter

  pub aes128_ecb-IsBlock : (key block out : Bytes) → aes128_ecb key block ≡ ok out → IsBlock out
  unfolding aes128_ecb
  aes128_ecb-IsBlock key block out e = ground (arith, tls.aes_crypt_ecb-IsBlock key block)

  pub cmac-IsBlock : (key message out : Bytes) → cmac key message ≡ ok out → IsBlock out
  unfolding cmac
  cmac-IsBlock key message out e = ground (
    arith,
    tls.cipher_cmac-IsBlock aes_128_ecb key (length key * 8) message,
    tls.cipher_cmac-IsBlock aes_256_ecb key (length key * 8) message,
  )

  -- `MbedTlsCryptoProvider` as the interface that the engines use.
  unfoldable pub mbedtls_provider : CryptoProvider
  mbedtls_provider = record {
    aes128_ecb_encrypt = aes128_ecb;
    aes256_ecb_encrypt = aes256_ecb;
    aes_cmac = cmac;
    aes128_ecb_encrypt-IsBlock = aes128_ecb-IsBlock;
    aes_cmac-IsBlock = cmac-IsBlock;
  }
