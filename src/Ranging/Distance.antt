-- ===== src/Ranging/Distance.antt =====
-- src/ranging/DistanceEstimator.cpp: double-sided two-way ranging. The sources compute in `int64_t`
-- and convert to `int32_t`; a product beyond the type wraps here, where C++ leaves it open.
pub mod Exact
use aliro_ccc_core.Base.{ℕ, ◌+◌, ◌*◌, ◌==◌, if◌then◌else◌}
use aliro_ccc_core.Base.Int.{ℤ, pos, ◌+ℤ◌, ◌-ℤ◌, ◌*ℤ◌, quot, wrap32, wrap64}
use aliro_ccc_core.Core.{Result, ok, err, invalid_parameter}

pub record DoubleSidedTwrTimestamps : Type 0 where
  pub round1_dtu : ℕ
  pub reply1_dtu : ℕ
  pub round2_dtu : ℕ
  pub reply2_dtu : ℕ

-- The denominator, and the test of `calculateDistance`; four 32-bit numbers fit 64 bits.
abbrev pub total_interval : DoubleSidedTwrTimestamps → ℕ
total_interval ts = ts.round1_dtu + ts.round2_dtu + ts.reply1_dtu + ts.reply2_dtu

unfoldable pub calculate_signed_tof_ticks : DoubleSidedTwrTimestamps → ℤ
calculate_signed_tof_ticks ts =
    let numerator = wrap64 (
      wrap64 (pos (ts.round1_dtu * ts.round2_dtu))
      -ℤ wrap64 (pos (ts.reply1_dtu * ts.reply2_dtu))) in
    if total_interval ts == 0 then pos 0 else wrap32 (quot numerator (total_interval ts))

unfoldable pub calculate_distance : DoubleSidedTwrTimestamps → ℤ → Result ℤ
calculate_distance ts antenna_delay_bias_mm =
    if total_interval ts == 0
    then err invalid_parameter
    else (let distance_calculated =
          wrap32 (quot (calculate_signed_tof_ticks ts *ℤ pos 4692) 1000) in
        ok (wrap32 (distance_calculated +ℤ antenna_delay_bias_mm)))
