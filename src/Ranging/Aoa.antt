-- ===== src/Ranging/Aoa.antt =====
-- src/ranging/AoAEstimator.cpp: the angle of arrival from the phase difference. Floating-point
-- arithmetic and the C library are parameters, the fields of `Floats`.
use aliro_ccc_core.Base.{Bool, true, false, if◌then◌else◌}
use aliro_ccc_core.Base.Int.{ℤ, pos, negsuc}
use aliro_ccc_core.Core.{UwbChannel, channel5, channel9}

-- `float` and `double` are one type here: the conversion of the spacing is exact.
pub record Floats : Type 1 where
  pub Float : Type 0
  pub of_int : ℤ → Float
  pub mul : Float → Float → Float
  pub div : Float → Float → Float
  pub fmin : Float → Float → Float
  pub fmax : Float → Float → Float
  pub asin : Float → Float
  pub lround : Float → ℤ
  pub is_positive : Float → Bool
  pub pi : Float
  pub wavelength_channel9_mm : Float
  pub wavelength_channel5_mm : Float

pub record AoAEstimate : Type 0 where
  pub centi_degrees : ℤ
  pub valid : Bool

module _ (floats : Floats) where
  abbrev pub wavelength_mm : UwbChannel → floats.Float
  wavelength_mm channel5 = floats.wavelength_channel5_mm
  wavelength_mm channel9 = floats.wavelength_channel9_mm

  -- The argument of the arcsine, before it is clamped.
  abbrev pub domain_arg : ℤ → UwbChannel → floats.Float → floats.Float
  domain_arg pdoa_raw channel antenna_spacing_mm =
      let pdoa_rad = floats.div (floats.of_int pdoa_raw) (floats.of_int (pos 2048)) in
      floats.div (floats.mul pdoa_rad (wavelength_mm channel))
        (floats.mul (floats.mul (floats.of_int (pos 2)) floats.pi) antenna_spacing_mm)

  abbrev pub clamp_unit : floats.Float → floats.Float
  clamp_unit x = floats.fmax (floats.of_int (negsuc 0)) (floats.fmin (floats.of_int (pos 1)) x)

  unfoldable pub from_pdoa : ℤ → UwbChannel → floats.Float → AoAEstimate
  from_pdoa pdoa_raw channel antenna_spacing_mm =
      if floats.is_positive antenna_spacing_mm
      then (let aoa_rad =
            floats.asin (clamp_unit (domain_arg pdoa_raw channel antenna_spacing_mm)) in
          record {
            centi_degrees = floats.lround (
                floats.mul (floats.mul aoa_rad (floats.div (floats.of_int (pos 180)) floats.pi))
                  (floats.of_int (pos 100)));
            valid = true;
          })
      else record { centi_degrees = pos 0; valid = false }
