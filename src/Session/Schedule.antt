-- ===== src/Session/Schedule.antt =====
-- src/session/RangingSession.cpp, the schedule of blocks, rounds and STS indices. The parameters of
-- the session, `m_params`, are the first argument of each function.
pub mod Indices
pub mod Next
use aliro_ccc_core.Base.{
  ℕ, suc, ◌+◌, ◌*◌, ◌/◌, ◌%◌, Bool, true, false, ◌&&◌, ◌||◌, Option, none, some, bit_and, ltb, ◌==◌,
  if◌then◌else◌,
}
use aliro_ccc_core.Base.Words.{u16, u32, u64, read_be32}
use aliro_ccc_core.Core.{
  HoppingMode, disabled, enabled, continuous_aes, continuous_default, adaptive_aes,
  adaptive_default,
}
use aliro_ccc_core.Ranging.Hopping.{calculate_round_index}
use aliro_ccc_core.Setup.{RangingSessionParameters}

-- One RSTU is 5/6 of a microsecond.
abbrev pub round_duration_us : RangingSessionParameters → ℕ
round_duration_us p = p.slots_per_round * p.slot_duration_rstu * 5 / 6

unfoldable pub rounds_per_block : RangingSessionParameters → ℕ
rounds_per_block p =
    if p.slot_duration_rstu == 0 || p.slots_per_round == 0 || p.duration_ms == 0
    then 0
    else if round_duration_us p == 0
    then 0
    else u32 (p.duration_ms * 1000 / round_duration_us p)

unfoldable pub block_sts_stride : RangingSessionParameters → ℕ
block_sts_stride p =
    if rounds_per_block p == 0 then 0 else u32 (rounds_per_block p * p.slots_per_round)

-- The sum is below 2 ^ 64 for a 16-bit block and round, so that only the cast wraps.
unfoldable pub poll_sts_index_for : RangingSessionParameters → ℕ → ℕ → ℕ
poll_sts_index_for p block round =
    u32 (p.sts_index0 + (block * block_sts_stride p + round * p.slots_per_round) + 1)

-- The loop over the four bytes of the key is a read of 32 bits, the first byte highest.
abbrev pub default_round_for : RangingSessionParameters → ℕ → ℕ
default_round_for p block =
    if rounds_per_block p == 0 || ltb 65535 (rounds_per_block p)
    then 0
    else calculate_round_index block (read_be32 p.hop_mode_key 0) (u16 (rounds_per_block p))

abbrev pub round_in_mode : RangingSessionParameters → ℕ → HoppingMode → ℕ
round_in_mode p block continuous_default = default_round_for p block
round_in_mode p block _ = 0

unfoldable pub scheduled_round_for : RangingSessionParameters → ℕ → ℕ
scheduled_round_for p block = round_in_mode p block p.hopping_mode

-- The modes in which the next exchange is known.
abbrev pub is_predictable : HoppingMode → Bool
is_predictable disabled = true
is_predictable continuous_default = true
is_predictable _ = false

-- `(macMode & 0xC0) == 0x40`.
abbrev pub two_rounds : RangingSessionParameters → Bool
two_rounds p = bit_and p.mac_mode 192 == 64

-- `true` and the two out parameters, or `false`.
unfoldable pub next_scheduled_exchange : RangingSessionParameters → ℕ → ℕ → Option (ℕ × ℕ)
unfolding scheduled_round_for
next_scheduled_exchange p block round =
    if is_predictable p.hopping_mode
    then (if rounds_per_block p == 0
        then none
        else if two_rounds p && (round == scheduled_round_for p block)
        then (if p.mac_mode % 64 == 0
            then none
            else if ltb (u16 (round + p.mac_mode % 64)) (rounds_per_block p)
            then some (block, u16 (round + p.mac_mode % 64))
            else none)
        else some (u16 (block + 1), scheduled_round_for p (u16 (block + 1))))
    else none
