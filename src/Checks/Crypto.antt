-- ===== src/Checks/Crypto.antt =====
-- Runs of the key derivation and of the SP0 engine, over a cipher that any reader can follow: it adds
-- 3 to each byte of its block, or of the first block of a message.
use aliro_ccc_core.Base.{
  ◌+◌, ◌%◌, ◌≡◌, ◌≢◌, refl, ap, arith, [], ◌∷◌, ◌++◌, map, length, replicate, take, drop, All,
  subst, ◌∙◌, length-map, length-take, length-append,
}
use aliro_ccc_core.Base.Words.{Bytes, IsByte, byte_at, of_be16, of_be32}
use aliro_ccc_core.Core.{ok, err, ok-injective, authentication_failed, MacAddresses}
use aliro_ccc_core.Crypto.Provider.{CryptoProvider, IsBlock}
use aliro_ccc_core.Crypto.Kdf.{
  kdf108, derive_sts_iv, derive_slot_keys, derive_addresses, SlotCryptoMaterial,
}
use aliro_ccc_core.Crypto.Kdf.Message.{kdf_message, kdf108-eq-cmac, derive_sts_iv-distinct}
use aliro_ccc_core.Crypto.Kdf.Rounds.{derive_slot_keys_round}
use aliro_ccc_core.Crypto.Kdf.Addresses.{derive_addresses-IsUsable, IsUsable}
use aliro_ccc_core.Crypto.Sp0.{compute_cbc_mac, encrypt_payload, decrypt_payload, xor_blocks}
use aliro_ccc_core.Crypto.Sp0.Tag.{ccm_flags, ccm_tag, compute_cbc_mac-eq-ccm_tag}
use aliro_ccc_core.Crypto.Sp0.Sealing.{Sealed}
use aliro_ccc_core.Crypto.Sp0.Accepted.{encrypt_accepts, decrypt_accepts}
use aliro_ccc_core.Crypto.Sp0.RoundTrip.{
  decrypt_payload-encrypt_payload, encrypt_payload-decrypt_payload, decrypt_payload_tampered,
}

abbrev pub block : Bytes → Bytes
block bs = map (λ b. (b + 3) % 256) (take 16 (bs ++ replicate 16 0))

added-IsByte : (bs : Bytes) → All IsByte (map (λ b. (b + 3) % 256) bs)
added-IsByte [] = tt
added-IsByte (b ∷ bs) = (omega arith, added-IsByte bs)

block-IsBlock : (bs : Bytes) → IsBlock (block bs)
block-IsBlock bs = (
  length-map (take 16 (bs ++ replicate 16 0)) (λ b. (b + 3) % 256)
      ∙ omega (arith, length-take 16 (bs ++ replicate 16 0), length-append bs (replicate 16 0)),
  added-IsByte (take 16 (bs ++ replicate 16 0)),
)

pub ok-IsBlock : (bs out : Bytes) → ok (block bs) ≡ ok out → IsBlock out
ok-IsBlock bs out e = subst IsBlock (ok-injective e) (block-IsBlock bs)

abbrev pub toy : CryptoProvider
toy = record {
  aes128_ecb_encrypt = λ key bs. ok (block bs);
  aes256_ecb_encrypt = λ key bs. ok (block bs);
  aes_cmac = λ key bs. ok (block bs);
  aes128_ecb_encrypt-IsBlock = λ key bs out e. ok-IsBlock bs out e;
  aes_cmac-IsBlock = λ key bs out e. ok-IsBlock bs out e;
}

abbrev pub a_key : Bytes
a_key = replicate 16 1

kdf108-eq-cmac_example :
    kdf108 toy a_key 1 (85 ∷ 80 ∷ []) (0 ∷ 0 ∷ []) 128
    ≡ ok (block (kdf_message 1 (85 ∷ 80 ∷ []) (0 ∷ 0 ∷ []) 128))
kdf108-eq-cmac_example = kdf108-eq-cmac toy a_key (85 ∷ 80 ∷ []) (0 ∷ 0 ∷ []) 1 128 (omega arith)

derive_sts_iv-distinct_example : derive_sts_iv a_key 5 ≢ derive_sts_iv a_key 6
derive_sts_iv-distinct_example =
    derive_sts_iv-distinct a_key 5 6 refl (omega arith) (omega arith) (omega arith)

abbrev pub a_slot : SlotCryptoMaterial
a_slot = record {
  dursk_key = 3 ∷ 3 ∷ 3 ∷ 4 ∷ 88 ∷ 85 ∷ 86 ∷ 78 ∷ 3 ∷ 4 ∷ 4 ∷ 4 ∷ 4 ∷ 4 ∷ 4 ∷ 4 ∷ [];
  sts_iv = 1 ∷ 1 ∷ 1 ∷ 1 ∷ 1 ∷ 1 ∷ 1 ∷ 1 ∷ 1 ∷ 1 ∷ 1 ∷ 7 ∷ 1 ∷ 1 ∷ 1 ∷ 1 ∷ [];
  dudsk_key = 3 ∷ 3 ∷ 3 ∷ 4 ∷ 88 ∷ 71 ∷ 86 ∷ 78 ∷ 3 ∷ 4 ∷ 4 ∷ 4 ∷ 4 ∷ 4 ∷ 4 ∷ 4 ∷ [];
}

derive_slot_keys_round_example :
    derive_slot_keys toy a_key a_key 7 12 0 ≡ ok (record a_slot { sts_iv = derive_sts_iv a_key 7 })
unfolding derive_slot_keys kdf108 derive_sts_iv of_be32
derive_slot_keys_round_example =
    derive_slot_keys_round toy a_key a_key 12 0 6 7 a_slot (omega arith) (omega arith) (omega arith)
      refl refl

abbrev some_addresses : MacAddresses
some_addresses = record {
  key_source = 3 ∷ 4 ∷ 3 ∷ 3 ∷ [];
  destination_short = 22596;
  source_long = 71 ∷ 3 ∷ 3 ∷ 3 ∷ 3 ∷ 3 ∷ 3 ∷ 3 ∷ [];
}

derive_addresses-IsUsable_example : IsUsable some_addresses
unfolding derive_addresses kdf108 of_be16
derive_addresses-IsUsable_example = derive_addresses-IsUsable toy a_key 0 some_addresses refl

compute_cbc_mac-eq-ccm_tag_example :
    compute_cbc_mac toy a_key (replicate 13 2) (1 ∷ 2 ∷ []) (7 ∷ 8 ∷ [])
    ≡ ccm_tag toy a_key (replicate 13 2) (1 ∷ 2 ∷ []) (7 ∷ 8 ∷ [])
compute_cbc_mac-eq-ccm_tag_example =
    compute_cbc_mac-eq-ccm_tag toy a_key (replicate 13 2) (1 ∷ 2 ∷ []) (7 ∷ 8 ∷ []) (omega arith)
      (omega arith)

-- The flags of RFC 3610 with a header and without one.
flags_of_headers : (ccm_flags (1 ∷ 2 ∷ []) ≡ 0x59) × (ccm_flags [] ≡ 0x19)
flags_of_headers = (refl, refl)

abbrev an_address : Bytes
an_address = replicate 8 5

abbrev an_output : Bytes
an_output = (encrypt_payload toy a_key an_address 9 (1 ∷ 2 ∷ []) (7 ∷ 8 ∷ []) (replicate 12 0)).1

encrypted :
    encrypt_payload toy a_key an_address 9 (1 ∷ 2 ∷ []) (7 ∷ 8 ∷ []) (replicate 12 0)
    ≡ (ok 10, an_output)
unfolding encrypt_payload
encrypted = refl

decrypt_payload-encrypt_payload_example :
    decrypt_payload toy a_key an_address 9 (1 ∷ 2 ∷ []) (take 10 an_output) (replicate 3 4)
    ≡ (ok 2, 7 ∷ 8 ∷ 4 ∷ [])
decrypt_payload-encrypt_payload_example =
    decrypt_payload-encrypt_payload toy a_key an_address 9 (1 ∷ 2 ∷ []) (7 ∷ 8 ∷ [])
      (replicate 12 0) an_output (replicate 3 4) 10 encrypted (omega arith)

encrypt_payload-decrypt_payload_example :
    encrypt_payload toy a_key an_address 9 (1 ∷ 2 ∷ []) (7 ∷ 8 ∷ []) (replicate 10 0) ≡ (
      ok (length (take 10 an_output)),
      take 10 an_output ++ drop (length (take 10 an_output)) (replicate 10 0),
    )
unfolding encrypt_payload xor_blocks
encrypt_payload-decrypt_payload_example =
    encrypt_payload-decrypt_payload toy a_key an_address 9 (1 ∷ 2 ∷ []) (take 10 an_output)
      (replicate 3 4) (7 ∷ 8 ∷ 4 ∷ []) (replicate 10 0) 2 decrypt_payload-encrypt_payload_example
      (omega arith)

an_output-Sealed : Sealed toy a_key an_address 9 (1 ∷ 2 ∷ []) (7 ∷ 8 ∷ []) (take 10 an_output)
an_output-Sealed =
    (encrypt_accepts toy a_key an_address 9 (1 ∷ 2 ∷ []) (7 ∷ 8 ∷ []) (replicate 12 0) an_output 10
      encrypted).1

decrypt_payload_tampered_example :
    decrypt_payload toy a_key an_address 9
      (1 ∷ 2 ∷ [])
      (take 2 (take 10 an_output) ++ replicate 8 0)
      (replicate 3 4)
    ≡ (err authentication_failed, replicate 3 0)
unfolding encrypt_payload xor_blocks
decrypt_payload_tampered_example =
    decrypt_payload_tampered toy a_key an_address 9 (1 ∷ 2 ∷ []) (7 ∷ 8 ∷ []) (take 10 an_output)
      (replicate 8 0) (replicate 3 4) an_output-Sealed refl
      (λ e. omega (arith, ap (λ (t : Bytes). byte_at t 0) e)) (omega arith)

decrypt_accepts_example :
    (plain : Bytes) × Sealed toy a_key an_address 9 (1 ∷ 2 ∷ []) plain (take 10 an_output)
    × (2 ≡ length plain)
    × (7 ∷ 8 ∷ 4 ∷ [] ≡ plain ++ drop (length plain) (replicate 3 4))
    × (length (take 10 an_output) ≡ length plain + 8)
decrypt_accepts_example =
    decrypt_accepts toy a_key an_address 9 (1 ∷ 2 ∷ []) (take 10 an_output) (replicate 3 4)
      (7 ∷ 8 ∷ 4 ∷ []) 2 decrypt_payload-encrypt_payload_example
