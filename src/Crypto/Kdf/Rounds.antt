-- ===== src/Crypto/Kdf/Rounds.antt =====
-- All slots of a round share their keys, and only the STS IV counts on from slot to slot.
use aliro_ccc_core.Base.{ℕ, ◌+◌, ◌*◌, ◌/◌, ◌^◌, ◌<◌, ◌≡◌, sym, ap, ◌∙◌, arith}
use aliro_ccc_core.Base.Words.{Bytes, u32, sub_u32}
use aliro_ccc_core.Core.{ok}
use aliro_ccc_core.Crypto.Provider.{CryptoProvider}
use aliro_ccc_core.Crypto.Kdf.{SlotCryptoMaterial, base_sts_index, derive_slot_keys, derive_sts_iv}
use native.Mathlib.Nat.{div-add-mod}

-- The slot count since `sts0` of the first slot of the round that `sts` lies in.
abbrev pub round_start : ℕ → ℕ → ℕ → ℕ
round_start sts slots sts0 = sub_u32 sts sts0 / slots * slots

pub base_sts_index_lem :
    (sts slots sts0 : ℕ)
    → sts < 2 ^ 32
    → sts0 < 2 ^ 32
    → base_sts_index sts slots sts0 ≡ u32 (sts0 + round_start sts slots sts0)
unfolding base_sts_index
base_sts_index_lem sts slots sts0 h h0 = omega (arith, div-add-mod (sub_u32 sts sts0) slots)

module _ (crypto : CryptoProvider) (mursk salted_hash : Bytes) (slots sts0 : ℕ) where
  -- Two indices of one round, counted from `sts0` and across the wrap of the 32-bit index, have the
  -- same key pair; the material differs in the STS IV alone, which is that of its own index.
  pub derive_slot_keys_round :
      (i j : ℕ) (m : SlotCryptoMaterial)
      → i < 2 ^ 32
      → j < 2 ^ 32
      → sts0 < 2 ^ 32
      → sub_u32 i sts0 / slots ≡ sub_u32 j sts0 / slots
      → derive_slot_keys crypto mursk salted_hash i slots sts0 ≡ ok m
      → derive_slot_keys crypto mursk salted_hash j slots sts0
        ≡ ok (record m { sts_iv = derive_sts_iv salted_hash j })
  unfolding derive_slot_keys
  derive_slot_keys_round i j m hi hj h0 same e =
      let base : base_sts_index i slots sts0 ≡ base_sts_index j slots sts0 =
        base_sts_index_lem i slots sts0 hi h0
        ∙ ap (λ (q : ℕ). u32 (sts0 + q * slots)) same
        ∙ sym (base_sts_index_lem j slots sts0 hj h0) in
      rw (← base) (ground arith)
