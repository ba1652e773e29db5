-- ===== src/Session/Cycle.antt =====
-- src/session/RangingSession.cpp, `deriveCycleKeys`: the keys of the three legs of one exchange.
pub mod Legs
use aliro_ccc_core.Base.{ℕ, ◌+◌}
use aliro_ccc_core.Base.Words.{Bytes, u32}
use aliro_ccc_core.Core.{Result, ok, err}
use aliro_ccc_core.Crypto.Provider.{CryptoProvider}
use aliro_ccc_core.Crypto.Kdf.{SlotCryptoMaterial, derive_slot_keys}
use aliro_ccc_core.Setup.{RangingSessionParameters}

pub record CycleKeys : Type 0 where
  pub poll_sts_index : ℕ
  pub poll : SlotCryptoMaterial
  pub response : SlotCryptoMaterial
  pub final_ : SlotCryptoMaterial

module _ (crypto : CryptoProvider) (mursk salted_hash : Bytes) (p : RangingSessionParameters)
    (responder_index : ℕ) where
  abbrev pub slot_keys : ℕ → Result SlotCryptoMaterial
  slot_keys sts_index =
      derive_slot_keys crypto mursk salted_hash sts_index p.slots_per_round p.sts_index0

  abbrev pub response_index : ℕ → ℕ
  response_index poll = u32 (poll + 1 + responder_index)

  abbrev pub final_index : ℕ → ℕ
  final_index poll = u32 (poll + 1 + p.responder_count)

  -- Each leg, from its keys on; the out parameter keeps the legs before an error.
  abbrev pub with_final : CycleKeys → Result SlotCryptoMaterial → Result (Unit {0}) × CycleKeys
  with_final out (err e) = (err e, out)
  with_final out (ok m) = (ok tt, record out { final_ = m })

  abbrev pub with_response :
      ℕ → CycleKeys → Result SlotCryptoMaterial → Result (Unit {0}) × CycleKeys
  with_response poll out (err e) = (err e, out)
  with_response poll out (ok m) =
      with_final (record out { response = m }) (slot_keys (final_index poll))

  abbrev pub with_poll : ℕ → CycleKeys → Result SlotCryptoMaterial → Result (Unit {0}) × CycleKeys
  with_poll poll out (err e) = (err e, out)
  with_poll poll out (ok m) =
      with_response poll (record out { poll = m }) (slot_keys (response_index poll))

  unfoldable pub derive_cycle_keys : ℕ → CycleKeys → Result (Unit {0}) × CycleKeys
  derive_cycle_keys poll_sts_index out =
      with_poll poll_sts_index (record out { poll_sts_index = poll_sts_index })
        (slot_keys poll_sts_index)
