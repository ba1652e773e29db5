-- ===== src/Session/Cycle/Legs.antt =====
-- The keys of an exchange that lies within one round.
use aliro_ccc_core.Base.{ℕ, ◌+◌, ◌*◌, ◌/◌, ◌%◌, ◌^◌, ◌≤◌, ◌<◌, ◌≡◌, sym, ap, ◌∙◌, arith}
use aliro_ccc_core.Base.Words.{Bytes, u32, sub_u32}
use aliro_ccc_core.Core.{ok}
use aliro_ccc_core.Crypto.Provider.{CryptoProvider}
use aliro_ccc_core.Crypto.Kdf.{SlotCryptoMaterial, derive_sts_iv}
use aliro_ccc_core.Crypto.Kdf.Rounds.{derive_slot_keys_round}
use aliro_ccc_core.Setup.{RangingSessionParameters}
use native.Mathlib.Nat.{div-add-mod, mul-add-div, div-eq_of_lt}
use aliro_ccc_core.Session.Cycle.{CycleKeys, slot_keys, derive_cycle_keys}

-- The Poll slot and the `k` slots behind it lie in one round, and no index wraps on the way.
abbrev pub IsInRound : RangingSessionParameters → ℕ → ℕ → Type 0
IsInRound p poll k =
    (sub_u32 poll p.sts_index0 % p.slots_per_round + k < p.slots_per_round)
    × (sub_u32 poll p.sts_index0 + k < 2 ^ 32)

assoc_one : (a b : ℕ) → a + 1 + b ≡ a + (1 + b)
assoc_one a b = omega arith

same_quotient : (a k s : ℕ) → a % s + k < s → (a + k) / s ≡ a / s
same_quotient a k s h =
    ap (λ (t : ℕ). t / s) {x = a + k} {y = s * (a / s) + (a % s + k)}
      (omega (arith, div-add-mod a s))
    ∙ mul-add-div {m = s} (omega arith) (a / s) (a % s + k)
    ∙ omega (arith, div-eq_of_lt {n = a % s + k} {m = s} h)

ahead_by :
    (poll sts0 k : ℕ)
    → poll < 2 ^ 32
    → sts0 < 2 ^ 32
    → sub_u32 poll sts0 + k < 2 ^ 32
    → sub_u32 (u32 (poll + k)) sts0 ≡ sub_u32 poll sts0 + k
ahead_by poll sts0 k hp h0 h = omega arith

module _ (crypto : CryptoProvider) (mursk salted_hash : Bytes) (p : RangingSessionParameters)
    (responder_index : ℕ) where
  behind :
      (poll k : ℕ) (m : SlotCryptoMaterial)
      → poll < 2 ^ 32
      → p.sts_index0 < 2 ^ 32
      → IsInRound p poll k
      → slot_keys crypto mursk salted_hash p responder_index poll ≡ ok m
      → slot_keys crypto mursk salted_hash p responder_index (u32 (poll + k))
        ≡ ok (record m { sts_iv = derive_sts_iv salted_hash (u32 (poll + k)) })
  behind poll k m hp h0 (inside, room) e =
      derive_slot_keys_round crypto mursk salted_hash p.slots_per_round p.sts_index0 poll
        (u32 (poll + k)) m hp (omega arith) h0
        (sym (
          ap (λ (t : ℕ). t / p.slots_per_round) (ahead_by poll p.sts_index0 k hp h0 room)
          ∙ same_quotient (sub_u32 poll p.sts_index0) k p.slots_per_round inside))
        e

  -- Where an exchange lies within one round, its three legs share the key pair of the Poll slot, and
  -- each has the STS IV of its own index; if the Poll slot's keys derive, so do all.
  pub derive_cycle_keys_round :
      (poll : ℕ) (out : CycleKeys) (m : SlotCryptoMaterial)
      → poll < 2 ^ 32
      → p.sts_index0 < 2 ^ 32
      → responder_index ≤ p.responder_count
      → IsInRound p poll (1 + p.responder_count)
      → slot_keys crypto mursk salted_hash p responder_index poll ≡ ok m
      → derive_cycle_keys crypto mursk salted_hash p responder_index poll out ≡ (
        ok tt,
        record {
          poll_sts_index = poll;
          poll = m;
          response = record m {
            sts_iv = derive_sts_iv salted_hash (u32 (poll + (1 + responder_index)));
          };
          final_ = record m {
            sts_iv = derive_sts_iv salted_hash (u32 (poll + (1 + p.responder_count)));
          };
        },
      )
  unfolding derive_cycle_keys
  derive_cycle_keys_round poll out m hp h0 few inside e =
      let response =
        behind poll (1 + responder_index) m hp h0 (omega (arith, inside), omega (arith, inside))
          e in
      let final = behind poll (1 + p.responder_count) m hp h0 inside e in
      rw (e, assoc_one poll responder_index, response, assoc_one poll p.responder_count, final)
