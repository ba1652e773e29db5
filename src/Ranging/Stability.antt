-- ===== src/Ranging/Stability.antt =====
-- include/uwb/ranging/NlosDetector.hpp, `AoaStabilityDetector`: angles are gated while the detector
-- warms up and for some blocks after a jump. The configuration is the first argument.
pub mod Gating
use aliro_ccc_core.Base.{ℕ, zero, suc, ◌-◌, ◌<◌, ◌≡◌, Bool, true, false, ◌||◌, ltb, if◌then◌else◌}
use aliro_ccc_core.Base.Int.{ℤ, pos, ◌+ℤ◌, ◌-ℤ◌, ltb_ℤ, quot, abs, wrap32}

pub record AoaStabilityConfig : Type 0 where
  pub jump_threshold_centi_deg : ℤ
  pub hold_blocks : ℕ
  pub warmup_blocks : ℕ

abbrev pub default_stability_config : AoaStabilityConfig
default_stability_config = record {
  jump_threshold_centi_deg = pos 2000;
  hold_blocks = 10;
  warmup_blocks = 4;
}

pub record AoaStabilityVerdict : Type 0 where
  pub jump : Bool
  pub gated : Bool

pub record AoaStabilityDetector : Type 0 where
  pub ref_centi_deg : ℤ
  pub ref_valid : Bool
  pub hold : ℕ
  pub warmup : ℕ

-- The constructed detector and the reset one are the same.
abbrev pub reset_detector : AoaStabilityConfig → AoaStabilityDetector
reset_detector config = record {
  ref_centi_deg = pos 0;
  ref_valid = false;
  hold = 0;
  warmup = config.warmup_blocks;
}

-- `int32_t` subtraction; overflow, open in C++, wraps here.
abbrev pub angle_delta : AoaStabilityDetector → ℤ → ℤ
angle_delta detector aoa_centi_deg = wrap32 (aoa_centi_deg -ℤ detector.ref_centi_deg)

abbrev pub is_jump : AoaStabilityConfig → AoaStabilityDetector → ℤ → Bool
is_jump config detector aoa_centi_deg =
    if detector.ref_valid
    then ltb_ℤ config.jump_threshold_centi_deg (pos (abs (angle_delta detector aoa_centi_deg)))
    else false

abbrev pub next_reference : AoaStabilityDetector → ℤ → ℤ
next_reference detector aoa_centi_deg =
    if detector.ref_valid
    then wrap32 (detector.ref_centi_deg +ℤ quot (angle_delta detector aoa_centi_deg) 2)
    else aoa_centi_deg

unfoldable pub ingest_angle :
    AoaStabilityConfig → AoaStabilityDetector → ℤ → AoaStabilityDetector × AoaStabilityVerdict
ingest_angle config detector aoa_centi_deg =
    let jump = is_jump config detector aoa_centi_deg in
    let hold = if jump then config.hold_blocks else detector.hold in
    (
      record {
        ref_centi_deg = next_reference detector aoa_centi_deg;
        ref_valid = true;
        hold = hold - 1;
        warmup = detector.warmup - 1;
      },
      record { jump = jump; gated = ltb 0 detector.warmup || ltb 0 hold },
    )

abbrev pub is_gated : AoaStabilityDetector → Bool
is_gated detector = ltb 0 detector.hold || ltb 0 detector.warmup
