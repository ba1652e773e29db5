-- ===== src/Ranging/Consensus/Runs.antt =====
-- The filter against a count over the whole history of its samples.
use aliro_ccc_core.Base.{
  ℕ, suc, min, ◌<◌, ◌≡◌, refl, subst, arith, Bool, true, false, Option, none, some, List, [], ◌∷◌,
  leb, ltb, ◌==◌, if◌then◌else◌, Bool-cases, inl, inr,
}
use aliro_ccc_core.Base.Int.{ℤ, pos, negsuc, ◌≤ℤ◌}
use aliro_ccc_core.Ranging.Consensus.{
  RangeConsensusConfig, RangeConsensusFilter, Sample, reset_filter, ingest, evaluate_plausibility,
  evaluate_sts_quality, clamp_distance, agrees, next_agreeing_streak, latest_trusted_distance,
  is_trusted, trust_confidence_score,
}

-- The state after a history of samples, the newest first.
unfoldable pub ingest_all : RangeConsensusConfig → List Sample → RangeConsensusFilter
ingest_all config [] = reset_filter
ingest_all config (sample ∷ older) = (ingest config (ingest_all config older) sample).0

-- The samples since the last implausible one.
pub since_reset : RangeConsensusConfig → List Sample → List Sample
since_reset config [] = []
since_reset config (sample ∷ older) =
    let rest = since_reset config older in
    if evaluate_plausibility config sample.distance then sample ∷ rest else []

-- How many samples, counted from the newest, lie each within the spread of the one before it.
pub run_length : RangeConsensusConfig → List Sample → ℕ
run_length config [] = 0
run_length config (sample ∷ []) = 1
run_length config (sample ∷ before ∷ older) =
    let run = run_length config (before ∷ older) in
    if agrees config (clamp_distance sample.distance) (clamp_distance before.distance)
    then suc run
    else 1

-- How many samples, counted from the newest, have an STS of good quality.
pub passed_length : RangeConsensusConfig → List Sample → ℕ
passed_length config [] = 0
passed_length config (sample ∷ older) =
    let run = passed_length config older in
    if evaluate_sts_quality config sample.driver_verdict sample.sts_quality_metric
    then suc run
    else 0

pub newest_distance : List Sample → Option ℤ
newest_distance [] = none
newest_distance (sample ∷ older) = some (clamp_distance sample.distance)

abbrev pub max_one : ℕ → ℕ
max_one n = if n == 0 then 1 else n

-- A streak is the run, cut off at the required number; the first sample counts in any case.
abbrev pub capped : RangeConsensusConfig → ℕ → ℕ
capped config run = min (max_one config.required_consensus_count) run

-- What the state says of the samples since the last reset.
pub record Tracks (config : RangeConsensusConfig) (samples : List Sample)
    (filter : RangeConsensusFilter) : Type 0 where
  pub last : filter.last_distance ≡ newest_distance samples
  pub agreeing : filter.agreeing_streak ≡ capped config (run_length config samples)
  pub passed :
      filter.sts_passed_streak ≡ min config.required_consensus_count (passed_length config samples)
  pub trust :
      filter.trusted ≡ leb (max_one config.required_consensus_count) (run_length config samples)

run_length-pos :
    (config : RangeConsensusConfig) (sample : Sample) (older : List Sample)
    → 0 < run_length config (sample ∷ older)
unfolding run_length
run_length-pos config sample [] = omega arith
run_length-pos config sample (before ∷ older) = ground arith

capped-step :
    (required run streak : ℕ) (b : Bool)
    → 0 < run
    → streak ≡ min (max_one required) run
    → (if b then (if ltb streak required then suc streak else streak) else 1)
      ≡ min (max_one required) (if b then suc run else 1)
capped-step required run streak b h e = ground arith

passed-step :
    (required run streak : ℕ) (b : Bool)
    → streak ≡ min required run
    → (if b then (if ltb streak required then suc streak else streak) else 0)
      ≡ min required (if b then suc run else 0)
passed-step required run streak b e = ground arith

trust-capped :
    (required run : ℕ)
    → 0 < run
    → leb required (min (max_one required) run) ≡ leb (max_one required) run
trust-capped required run h = ground arith

next_agreeing_streak-capped :
    (config : RangeConsensusConfig) (sample : Sample) (samples : List Sample)
    (filter : RangeConsensusFilter)
    → Tracks config samples filter
    → next_agreeing_streak config filter.last_distance filter.agreeing_streak
        (clamp_distance sample.distance)
      ≡ capped config (run_length config (sample ∷ samples))
unfolding run_length newest_distance
next_agreeing_streak-capped config sample [] filter t = rw t.last ground arith
next_agreeing_streak-capped config sample (before ∷ older) filter t = rw t.last (
    capped-step config.required_consensus_count (run_length config (before ∷ older))
      filter.agreeing_streak
      (agrees config (clamp_distance sample.distance) (clamp_distance before.distance))
      (run_length-pos config before older) t.agreeing)

ingest-Tracks :
    (config : RangeConsensusConfig) (sample : Sample) (samples : List Sample)
    (filter : RangeConsensusFilter)
    → Tracks config samples filter
    → evaluate_plausibility config sample.distance ≡ true
    → Tracks config (sample ∷ samples) (ingest config filter sample).0
unfolding ingest newest_distance passed_length
ingest-Tracks config sample samples filter t e =
    let agreeing = next_agreeing_streak-capped config sample samples filter t in
    record {
      last = rw e;
      agreeing = rw (e, agreeing);
      passed = rw e (
          passed-step config.required_consensus_count (passed_length config samples)
            filter.sts_passed_streak
            (evaluate_sts_quality config sample.driver_verdict sample.sts_quality_metric) t.passed);
      trust =
          rw (e, agreeing)
            (trust-capped config.required_consensus_count (run_length config (sample ∷ samples))
              (run_length-pos config sample samples));
    }

reset_filter-Tracks : (config : RangeConsensusConfig) → Tracks config [] reset_filter
unfolding run_length passed_length newest_distance
reset_filter-Tracks config = record {
  last = refl;
  agreeing = ground arith;
  passed = ground arith;
  trust = ground arith;
}

ingest-resets :
    (config : RangeConsensusConfig) (filter : RangeConsensusFilter) (sample : Sample)
    → evaluate_plausibility config sample.distance ≡ false
    → (ingest config filter sample).0 ≡ reset_filter
unfolding ingest
ingest-resets config filter sample e = rw e

ingest_all-Tracks :
    (config : RangeConsensusConfig) (history : List Sample)
    → Tracks config (since_reset config history) (ingest_all config history)
unfolding ingest_all since_reset
ingest_all-Tracks config [] = reset_filter-Tracks config
ingest_all-Tracks config (sample ∷ older) =
    elim (Bool-cases (evaluate_plausibility config sample.distance)) [
      | inl e ↦ rw e (
          ingest-Tracks config sample (since_reset config older) (ingest_all config older)
            (ingest_all-Tracks config older) e)
      | inr e ↦
          rw (e, ingest-resets config (ingest_all config older) sample e)
            (reset_filter-Tracks config)
    ]

pub ingest_all-run_length :
    (config : RangeConsensusConfig) (history : List Sample)
    → (is_trusted (ingest_all config history)
        ≡ leb
            (max_one config.required_consensus_count)
            (run_length config (since_reset config history)))
      × (trust_confidence_score (ingest_all config history)
          ≡ min
              (max_one config.required_consensus_count)
              (run_length config (since_reset config history)))
      × (latest_trusted_distance (ingest_all config history) ≡ (
          if leb
            (max_one config.required_consensus_count)
            (run_length config (since_reset config history))
          then newest_distance (since_reset config history)
          else none))
ingest_all-run_length config history =
    let t = ingest_all-Tracks config history in (t.trust, t.agreeing, rw (t.trust, t.last))

clamp_distance-bounds :
    (config : RangeConsensusConfig) (x : ℤ)
    → pos 0 ≤ℤ config.max_plausible_distance
    → evaluate_plausibility config x ≡ true
    → (pos 0 ≤ℤ clamp_distance x) × (clamp_distance x ≤ℤ config.max_plausible_distance)
clamp_distance-bounds config (pos n) v h = ground arith
clamp_distance-bounds config (negsuc n) v h = ground arith

some-injective : {a b : ℤ} → some a ≡ some b → a ≡ b
some-injective e = cc

newest-bounds :
    (config : RangeConsensusConfig) (history : List Sample) (d : ℤ)
    → pos 0 ≤ℤ config.max_plausible_distance
    → newest_distance (since_reset config history) ≡ some d
    → (pos 0 ≤ℤ d) × (d ≤ℤ config.max_plausible_distance)
unfolding since_reset newest_distance
newest-bounds config [] d v e = cc
newest-bounds config (sample ∷ older) d v e =
    elim (Bool-cases (evaluate_plausibility config sample.distance)) [
      | inl h ↦
          let same : clamp_distance sample.distance ≡ d = some-injective (rw h at e) in
          subst (λ x. (pos 0 ≤ℤ x) × (x ≤ℤ config.max_plausible_distance)) same
            (clamp_distance-bounds config sample.distance v h)
      | inr h ↦ cc (e, h)
    ]

-- A trusted distance lies between 0 and the greatest plausible one, when that is not negative.
pub latest_trusted_distance_bounds :
    (config : RangeConsensusConfig) (history : List Sample) (d : ℤ)
    → pos 0 ≤ℤ config.max_plausible_distance
    → latest_trusted_distance (ingest_all config history) ≡ some d
    → (pos 0 ≤ℤ d) × (d ≤ℤ config.max_plausible_distance)
latest_trusted_distance_bounds config history d v e =
    newest-bounds config history d v ground (arith, ingest_all-run_length config history)
