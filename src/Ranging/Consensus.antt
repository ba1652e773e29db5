-- ===== src/Ranging/Consensus.antt =====
-- src/ranging/RangeConsensusFilter.cpp: a distance is trusted after enough consecutive estimates
-- that agree. The configuration is the first argument of each operation, the state the second.
pub mod Runs
use aliro_ccc_core.Base.{
  ℕ, zero, suc, ◌+◌, ◌==◌, if◌then◌else◌, Bool, true, false, ◌&&◌, ◌||◌, Option, none, some, ltb,
  leb,
}
use aliro_ccc_core.Base.Int.{ℤ, pos, negsuc, ltb_ℤ, leb_ℤ, ◌-ℤ◌, abs}

pub record RangeConsensusConfig : Type 0 where
  pub min_plausible_distance : ℤ
  pub max_plausible_distance : ℤ
  pub max_consecutive_spread_mm : ℤ
  pub required_consensus_count : ℕ
  pub minimum_sts_quality_threshold : ℤ

abbrev pub default_consensus_config : RangeConsensusConfig
default_consensus_config = record {
  min_plausible_distance = negsuc 299;
  max_plausible_distance = pos 20000;
  max_consecutive_spread_mm = pos 500;
  required_consensus_count = 3;
  minimum_sts_quality_threshold = pos 55;
}

pub record RangeIntegrityReport : Type 0 where
  pub distance : ℤ
  pub is_plausible : Bool
  pub sts_quality_passed : Bool
  pub sts_quality_index : ℤ
  pub consecutive_agreeing_count : ℕ
  pub sts_valid_streak : ℕ
  pub is_trusted : Bool
  pub nlos_valid : Bool
  pub nlos_detected : Bool
  pub first_path_power_db_q8 : ℤ
  pub rssi_db_q8 : ℤ
  pub aoa_unstable : Bool

abbrev pub default_report : RangeIntegrityReport
default_report = record {
  distance = pos 0;
  is_plausible = false;
  sts_quality_passed = false;
  sts_quality_index = pos 0;
  consecutive_agreeing_count = 0;
  sts_valid_streak = 0;
  is_trusted = false;
  nlos_valid = false;
  nlos_detected = false;
  first_path_power_db_q8 = pos 0;
  rssi_db_q8 = pos 0;
  aoa_unstable = false;
}

-- The arguments of one call of `ingest`.
pub record Sample : Type 0 where
  pub distance : ℤ
  pub driver_verdict : ℤ
  pub sts_quality_metric : ℤ

pub record RangeConsensusFilter : Type 0 where
  pub last_distance : Option ℤ
  pub agreeing_streak : ℕ
  pub sts_passed_streak : ℕ
  pub lowest_quality_in_streak : ℤ
  pub trusted : Bool

abbrev pub reset_filter : RangeConsensusFilter
reset_filter = record {
  last_distance = none;
  agreeing_streak = 0;
  sts_passed_streak = 0;
  lowest_quality_in_streak = pos 0;
  trusted = false;
}

abbrev pub evaluate_plausibility : RangeConsensusConfig → ℤ → Bool
evaluate_plausibility config distance =
    leb_ℤ config.min_plausible_distance distance && leb_ℤ distance config.max_plausible_distance

abbrev pub evaluate_sts_quality : RangeConsensusConfig → ℤ → ℤ → Bool
evaluate_sts_quality config driver_verdict quality_index =
    leb_ℤ (pos 0) driver_verdict && leb_ℤ config.minimum_sts_quality_threshold quality_index

-- A small negative distance counts as 0.
abbrev pub clamp_distance : ℤ → ℤ
clamp_distance distance = if ltb_ℤ distance (pos 0) then pos 0 else distance

-- A streak stops counting at the required number.
abbrev pub bump : RangeConsensusConfig → ℕ → ℕ
bump config streak = if ltb streak config.required_consensus_count then suc streak else streak

-- `delta <= maxConsecutiveSpreadMm`; both distances are at least 0 here, so the difference fits.
abbrev pub agrees : RangeConsensusConfig → ℤ → ℤ → Bool
agrees config distance last_distance =
    leb_ℤ (pos (abs (distance -ℤ last_distance))) config.max_consecutive_spread_mm

abbrev pub next_agreeing_streak : RangeConsensusConfig → Option ℤ → ℕ → ℤ → ℕ
next_agreeing_streak config none agreeing_streak distance = 1
next_agreeing_streak config (some last) agreeing_streak distance =
    if agrees config distance last then bump config agreeing_streak else 1

abbrev pub next_lowest_quality : RangeConsensusFilter → Bool → ℤ → ℤ
next_lowest_quality filter true metric =
    if filter.sts_passed_streak == 0 || ltb_ℤ metric filter.lowest_quality_in_streak
    then metric
    else filter.lowest_quality_in_streak
next_lowest_quality filter false metric = metric

unfoldable pub ingest :
    RangeConsensusConfig
    → RangeConsensusFilter
    → Sample
    → RangeConsensusFilter × RangeIntegrityReport
ingest config filter sample =
    if evaluate_plausibility config sample.distance
    then (let distance = clamp_distance sample.distance in
        let passed = evaluate_sts_quality config sample.driver_verdict sample.sts_quality_metric in
        let sts_passed_streak = if passed then bump config filter.sts_passed_streak else 0 in
        let agreeing_streak =
          next_agreeing_streak config filter.last_distance filter.agreeing_streak distance in
        let trusted = leb config.required_consensus_count agreeing_streak in
        (
          record {
            last_distance = some distance;
            agreeing_streak = agreeing_streak;
            sts_passed_streak = sts_passed_streak;
            lowest_quality_in_streak = next_lowest_quality filter passed sample.sts_quality_metric;
            trusted = trusted;
          },
          record default_report {
            distance = distance;
            is_plausible = true;
            sts_quality_passed = passed;
            sts_quality_index = sample.sts_quality_metric;
            consecutive_agreeing_count = agreeing_streak;
            sts_valid_streak = sts_passed_streak;
            is_trusted = trusted;
          },
        ))
    else (
      reset_filter,
      record default_report {
        distance = sample.distance;
        sts_quality_index = sample.sts_quality_metric;
      },
    )

abbrev pub latest_trusted_distance : RangeConsensusFilter → Option ℤ
latest_trusted_distance filter = if filter.trusted then filter.last_distance else none

abbrev pub is_trusted : RangeConsensusFilter → Bool
is_trusted filter = filter.trusted

abbrev pub trust_confidence_score : RangeConsensusFilter → ℕ
trust_confidence_score filter = filter.agreeing_streak
