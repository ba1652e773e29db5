-- ===== src/Crypto/Kdf.antt =====
-- src/crypto/CccKeyDerivationEngine.cpp: the keys of a session and of a slot. Arrays of a fixed size
-- are lists of that length.
pub mod Message
pub mod Rounds
pub mod Addresses
use aliro_ccc_core.Base.{
  ℕ, zero, suc, ◌+◌, ◌-◌, ◌%◌, Bool, ◌&&◌, true, List, [], ◌∷◌, ◌++◌, leb, ◌==◌, if◌then◌else◌,
  length, take, drop, replicate, write, stores, bit_and,
}
use aliro_ccc_core.Base.Words.{Bytes, u32, sub_u32, byte_at, be32, read_be32, of_be16, ◌>>>◌}
use aliro_ccc_core.Core.{Result, ok, err, ◌>>=◌, invalid_parameter, MacAddresses}
use aliro_ccc_core.Crypto.Provider.{CryptoProvider}

abbrev pub label_upsk : Bytes
label_upsk = b'U' ∷ b'P' ∷ b'S' ∷ b'K' ∷ []

abbrev pub label_ursk : Bytes
label_ursk = b'U' ∷ b'R' ∷ b'S' ∷ b'K' ∷ []

abbrev pub label_udsk : Bytes
label_udsk = b'U' ∷ b'D' ∷ b'S' ∷ b'K' ∷ []

abbrev pub label_salt : Bytes
label_salt = b'S' ∷ b'A' ∷ b'L' ∷ b'T' ∷ []

abbrev pub label_ursk_kt : Bytes
label_ursk_kt = b'U' ∷ b'R' ∷ b'S' ∷ b'K' ∷ b'_' ∷ b'K' ∷ b'T' ∷ []

abbrev pub label_uad : Bytes
label_uad = b'U' ∷ b'A' ∷ b'D' ∷ []

abbrev pub zero_context3 : Bytes
zero_context3 = 0 ∷ 0 ∷ 0 ∷ []

pub all_ff : Bytes → Bool
all_ff [] = true
all_ff (b ∷ bs) = b == 0xff && all_ff bs

is_reserved : Bytes → Bool
unfolding all_ff
is_reserved addr =
    if length addr == 2 then byte_at addr 0 == 0xff && leb 0xfe (byte_at addr 1) else all_ff addr

sanitize_reserved_address : Bytes → Bytes
unfolding is_reserved
sanitize_reserved_address addr =
    if is_reserved addr then write 0 (bit_and (byte_at addr 0) 0x7f ∷ []) addr else addr

-- The context of the slot keys: the 32 bits of a word, highest first; `k` of them are left.
bits_from : ℕ → ℕ → Bytes
bits_from word zero = []
bits_from word (suc k) = (word >>> k) % 2 ∷ bits_from word k

-- `SaltedHash[8..11] + sts_index`, stored back.
unfoldable pub derive_sts_iv : Bytes → ℕ → Bytes
derive_sts_iv salted_hash sts_index =
    write 8 (be32 (u32 (read_be32 salted_hash 8 + sts_index))) salted_hash

pub record SlotCryptoMaterial : Type 0 where
  pub dursk_key : Bytes
  pub sts_iv : Bytes
  pub dudsk_key : Bytes

-- The index of the first slot of the round that `sts_index` lies in.
unfoldable pub base_sts_index : ℕ → ℕ → ℕ → ℕ
base_sts_index sts_index slots_per_round sts_index0 =
    sub_u32 sts_index (sub_u32 sts_index sts_index0 % slots_per_round)

module _ (crypto : CryptoProvider) where
  -- The five parts are stored one behind the other into a buffer of 64 bytes.
  unfoldable pub kdf108 : Bytes → ℕ → Bytes → Bytes → ℕ → Result Bytes
  kdf108 key counter label context length_bits =
      let separator = 4 + length label in
      let context_at = separator + 1 in
      let bits_at = context_at + length context in
      let parts : List (ℕ × Bytes) =
        (0, be32 counter)
        ∷ (4, label)
        ∷ (separator, 0 ∷ [])
        ∷ (context_at, context)
        ∷ (bits_at, be32 length_bits)
        ∷ [] in
      crypto.aes_cmac key (take (bits_at + 4) (stores parts (replicate 64 0)))

  unfoldable pub derive_mupsk1 : Bytes → Result Bytes
  derive_mupsk1 ursk = kdf108 ursk 1 label_upsk zero_context3 384

  unfoldable pub derive_mupsk2 : Bytes → Result Bytes
  derive_mupsk2 ursk = do
    part1 ← kdf108 ursk 2 label_upsk zero_context3 384
    part2 ← kdf108 ursk 3 label_upsk zero_context3 384
    ok (part1 ++ part2)

  unfoldable pub derive_mursk : Bytes → Result Bytes
  derive_mursk ursk = do
    part1 ← kdf108 ursk 1 label_ursk zero_context3 256
    part2 ← kdf108 ursk 2 label_ursk zero_context3 256
    ok (part1 ++ part2)

  unfoldable pub derive_salted_hash : Bytes → Bytes → Result Bytes
  derive_salted_hash ursk ranging_config = do
    salt ← kdf108 ursk 1 label_salt zero_context3 128
    crypto.aes_cmac (replicate 16 0 ++ salt) ranging_config

  unfoldable pub derive_addresses : Bytes → ℕ → Result MacAddresses
  unfolding sanitize_reserved_address
  derive_addresses mupsk2 sts_index0 = do
    uad ← kdf108 mupsk2 1 label_uad (be32 sts_index0) 128
    let ks_low = sanitize_reserved_address (byte_at uad 0 ∷ byte_at uad 1 ∷ [])
    let ks_high = sanitize_reserved_address (byte_at uad 2 ∷ byte_at uad 3 ∷ [])
    let dest_short = sanitize_reserved_address (byte_at uad 4 ∷ byte_at uad 5 ∷ [])
    let src_long = sanitize_reserved_address (take 8 (drop 6 uad))
    ok (record {
      key_source = byte_at ks_high 0 ∷ byte_at ks_high 1 ∷ byte_at ks_low 0 ∷ byte_at ks_low 1 ∷ [];
      destination_short = of_be16 (byte_at dest_short 0) (byte_at dest_short 1);
      source_long = src_long;
    })

  unfoldable pub derive_slot_keys : Bytes → Bytes → ℕ → ℕ → ℕ → Result SlotCryptoMaterial
  unfolding bits_from
  derive_slot_keys mursk salted_hash sts_index slots_per_round sts_index0 =
      if slots_per_round == 0 then err invalid_parameter else do
        let context = bits_from (base_sts_index sts_index slots_per_round sts_index0) 32
        kt1 ← kdf108 mursk 1 label_ursk_kt context 256
        kt2 ← kdf108 mursk 2 label_ursk_kt context 256
        let dkey_context = salted_hash ++ zero_context3
        dursk ← kdf108 (kt1 ++ kt2) 1 label_ursk dkey_context 128
        dudsk ← kdf108 (kt1 ++ kt2) 1 label_udsk dkey_context 128
        ok (record {
          dursk_key = dursk;
          sts_iv = derive_sts_iv salted_hash sts_index;
          dudsk_key = dudsk;
        })
