-- ===== src/Ranging/Hopping.antt =====
-- src/ranging/HoppingCalculator.cpp: the round of a block in continuous hopping.
use aliro_ccc_core.Base.{ℕ, ◌+◌, ◌*◌, ◌/◌, ◌%◌, ◌^◌, ◌<◌, ◌≡◌, arith, ◌==◌, if◌then◌else◌}
use aliro_ccc_core.Base.Words.{u16, ◌>>>◌}

abbrev pub hopping_modulus : ℕ
hopping_modulus = 65521

-- `& 0xFFFF` of the sum, squared modulo the prime.
pub scrambled : ℕ → ℕ → ℕ
scrambled block_index hop_key_rw =
    let t = (block_index + hop_key_rw) % 2 ^ 16 in t * t % hopping_modulus

unfoldable pub calculate_round_index : ℕ → ℕ → ℕ → ℕ
unfolding scrambled
calculate_round_index block_index hop_key_rw rounds_per_block =
    if rounds_per_block == 0
    then 0
    else u16 ((scrambled block_index hop_key_rw * rounds_per_block) >>> 16)

scaled-lt : (t rounds : ℕ) → t < 65521 → 0 < rounds → t * rounds / 65536 < rounds
scaled-lt t rounds h r = grind arith

-- The round is one of the rounds of the block, and the cast to 16 bits cuts nothing off.
pub calculate_round_index-lt :
    (block_index hop_key_rw rounds_per_block : ℕ)
    → 0 < rounds_per_block
    → rounds_per_block < 2 ^ 16
    → (calculate_round_index block_index hop_key_rw rounds_per_block < rounds_per_block)
      × (calculate_round_index block_index hop_key_rw rounds_per_block
          ≡ scrambled block_index hop_key_rw * rounds_per_block / 2 ^ 16)
unfolding calculate_round_index
calculate_round_index-lt block_index hop_key_rw rounds h lt =
    ground (arith, scaled-lt (scrambled block_index hop_key_rw) rounds)
