-- ===== src/Session/Schedule/Indices.antt =====
-- The STS indices of Poll slots.
use aliro_ccc_core.Base.{
  ℕ, suc, ◌+◌, ◌*◌, ◌/◌, ◌^◌, ◌≤◌, ◌<◌, ◌≡◌, ◌≢◌, ◌⊎◌, inl, inr, sym, ap, ◌∙◌, arith,
}
use aliro_ccc_core.Base.Words.{u32}
use native.Mathlib.Nat.{mul-div_cancel, mul-add-div_right, div-eq_of_lt}
use aliro_ccc_core.Setup.{RangingSessionParameters}
use aliro_ccc_core.Session.Schedule.{rounds_per_block, block_sts_stride, poll_sts_index_for}

block_step : (block stride : ℕ) → suc block * stride ≡ block * stride + stride
block_step block stride = omega arith

-- From one block to the next the index of a round advances by the stride, also where it wraps.
pub poll_sts_index_for-stride :
    (p : RangingSessionParameters) (block round : ℕ)
    → poll_sts_index_for p (suc block) round
      ≡ u32 (poll_sts_index_for p block round + block_sts_stride p)
unfolding poll_sts_index_for
poll_sts_index_for-stride p block round = omega (arith, block_step block (block_sts_stride p))

digits_unique :
    (slots rounds b b' r r' : ℕ)
    → 0 < slots
    → r < rounds
    → r' < rounds
    → b * (rounds * slots) + r * slots ≡ b' * (rounds * slots) + r' * slots
    → (b ≡ b') × (r ≡ r')
digits_unique slots rounds b b' r r' pos_slots h h' e =
    let same : b * rounds + r ≡ b' * rounds + r' =
      sym (mul-div_cancel (b * rounds + r) {n = slots} pos_slots)
      ∙ ap (λ (t : ℕ). t / slots) (grind arith)
      ∙ mul-div_cancel (b' * rounds + r') {n = slots} pos_slots in
    let block_of : (x y : ℕ) → y < rounds → (x * rounds + y) / rounds ≡ x = λ x y lt. omega (
      arith,
      mul-add-div_right {m = rounds} (omega arith) x y,
      div-eq_of_lt {n = y} {m = rounds} lt,
    ) in
    let first : b ≡ b' =
      sym (block_of b r h) ∙ ap (λ (t : ℕ). t / rounds) same ∙ block_of b' r' h' in
    (first, omega (arith, same, ap (λ (t : ℕ). t * rounds) first))

below : (stride block start : ℕ) → start + suc block * stride < 2 ^ 32 → stride < 2 ^ 32
below stride block start h = omega (arith, block_step block stride)

within : (slots rounds r : ℕ) → 0 < slots → r < rounds → r * slots + 1 ≤ rounds * slots
within slots rounds r hs hr = grind arith

stride_fits :
    (p : RangingSessionParameters)
    → 0 < rounds_per_block p
    → rounds_per_block p * p.slots_per_round < 2 ^ 32
    → block_sts_stride p ≡ rounds_per_block p * p.slots_per_round
unfolding block_sts_stride
stride_fits p h small = ground arith

index_fits :
    (p : RangingSessionParameters) (block round : ℕ)
    → 0 < p.slots_per_round
    → round < rounds_per_block p
    → p.sts_index0 + suc block * (rounds_per_block p * p.slots_per_round) < 2 ^ 32
    → poll_sts_index_for p block round
      ≡ p.sts_index0
        + (block * (rounds_per_block p * p.slots_per_round) + round * p.slots_per_round)
        + 1
unfolding poll_sts_index_for
index_fits p block round pos_slots h room =
    let stride : ℕ = rounds_per_block p * p.slots_per_round in
    let next : suc block * stride ≡ block * stride + stride = block_step block stride in
    let inside : round * p.slots_per_round + 1 ≤ stride =
      within p.slots_per_round (rounds_per_block p) round pos_slots h in
    let same : block_sts_stride p ≡ stride =
      stride_fits p (omega arith) (below stride block p.sts_index0 room) in
    rw same (omega (arith, next, inside, room))

poll_sts_index_for_unique :
    (p : RangingSessionParameters) (block block' round round' : ℕ)
    → 0 < p.slots_per_round
    → round < rounds_per_block p
    → round' < rounds_per_block p
    → p.sts_index0 + suc block * (rounds_per_block p * p.slots_per_round) < 2 ^ 32
    → p.sts_index0 + suc block' * (rounds_per_block p * p.slots_per_round) < 2 ^ 32
    → poll_sts_index_for p block round ≡ poll_sts_index_for p block' round'
    → (block ≡ block') × (round ≡ round')
poll_sts_index_for_unique p block block' round round' pos_slots h h' room room' e =
    digits_unique p.slots_per_round (rounds_per_block p) block block' round round' pos_slots h h' (
      omega (
        arith,
        index_fits p block round pos_slots h room,
        index_fits p block' round' pos_slots h' room',
        e,
      ))

-- Poll slots of different rounds have different indices: for rounds of their blocks, while the
-- indices of the session stay below 2 ^ 32.
pub poll_sts_index_for-distinct :
    (p : RangingSessionParameters) (block block' round round' : ℕ)
    → 0 < p.slots_per_round
    → round < rounds_per_block p
    → round' < rounds_per_block p
    → p.sts_index0 + suc block * (rounds_per_block p * p.slots_per_round) < 2 ^ 32
    → p.sts_index0 + suc block' * (rounds_per_block p * p.slots_per_round) < 2 ^ 32
    → (block ≢ block') ⊎ (round ≢ round')
    → poll_sts_index_for p block round ≢ poll_sts_index_for p block' round'
poll_sts_index_for-distinct p block block' round round' pos_slots h h' room room' other e =
    let (same, same') =
      poll_sts_index_for_unique p block block' round round' pos_slots h h' room room' e in
    elim other [ inl differs ↦ differs same | inr differs ↦ differs same' ]
