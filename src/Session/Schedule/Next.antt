-- ===== src/Session/Schedule/Next.antt =====
-- The exchange that a session prepares its keys for.
use aliro_ccc_core.Base.{ℕ, ◌+◌, ◌^◌, ◌<◌, ◌≡◌, ◌⊎◌, arith, some}
use aliro_ccc_core.Base.Words.{u16, read_be32}
use aliro_ccc_core.Core.{
  HoppingMode, disabled, enabled, continuous_aes, continuous_default, adaptive_aes,
  adaptive_default,
}
use aliro_ccc_core.Ranging.Hopping.{calculate_round_index-lt}
use aliro_ccc_core.Setup.{RangingSessionParameters}
use aliro_ccc_core.Session.Schedule.{
  rounds_per_block, scheduled_round_for, round_in_mode, default_round_for, next_scheduled_exchange,
}

default_round_for-lt :
    (p : RangingSessionParameters) (block : ℕ)
    → 0 < rounds_per_block p
    → default_round_for p block < rounds_per_block p
default_round_for-lt p block h =
    ground (
      arith,
      calculate_round_index-lt block (read_be32 p.hop_mode_key 0) (u16 (rounds_per_block p)),
    )

pub scheduled_round_for-lt :
    (p : RangingSessionParameters) (block : ℕ)
    → 0 < rounds_per_block p
    → scheduled_round_for p block < rounds_per_block p
unfolding scheduled_round_for
scheduled_round_for-lt p block h = in_mode p.hopping_mode
  where
    in_mode : (mode : HoppingMode) → round_in_mode p block mode < rounds_per_block p
    in_mode disabled = h
    in_mode enabled = h
    in_mode continuous_aes = h
    in_mode continuous_default = default_round_for-lt p block h
    in_mode adaptive_aes = h
    in_mode adaptive_default = h

-- Where the block is below 2 ^ 16 and the round, with 63 more, too, the exchange that is predicted
-- next is in one of the block's rounds; and it is a later round of the same block, or the scheduled
-- round of the block after it, which is block 0 after the last.
pub next_scheduled_exchange_later :
    (p : RangingSessionParameters) (block round next_block next_round : ℕ)
    → block < 2 ^ 16
    → round + 63 < 2 ^ 16
    → next_scheduled_exchange p block round ≡ some (next_block, next_round)
    → (next_round < rounds_per_block p)
      × (((next_block ≡ block) × (round < next_round))
          ⊎ ((next_block ≡ u16 (block + 1)) × (next_round ≡ scheduled_round_for p next_block)))
unfolding next_scheduled_exchange
next_scheduled_exchange_later p block round next_block next_round hb hr e =
    ground (arith, scheduled_round_for-lt p (u16 (block + 1)))
