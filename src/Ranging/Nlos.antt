-- ===== src/Ranging/Nlos.antt =====
-- include/uwb/ranging/NlosDetector.hpp, `NlosDetector`: a sample is out of line of sight when the
-- whole channel's power exceeds that of the first path by more than the margin.
use aliro_ccc_core.Base.{
  ◌+◌, ◌≡◌, ◌≢◌, ◌↔◌, arith, Bool, true, false, ◌||◌, ◌&&◌, Bool-cases, inl, inr, ◌==◌,
  if◌then◌else◌,
}
use aliro_ccc_core.Base.Int.{ℤ, pos, negsuc, ◌-ℤ◌, ◌+ℤ◌, ltb_ℤ, pos_part, neg_part}

-- Q8.8 dBm, as `int16_t`.
pub record NlosSample : Type 0 where
  pub first_path_power_db_q8 : ℤ
  pub rssi_db_q8 : ℤ

pub record NlosVerdict : Type 0 where
  pub valid : Bool
  pub nlos : Bool

abbrev pub nlos_margin_db_q8 : ℤ
nlos_margin_db_q8 = pos 2560

-- The value of the driver's error, `INT16_MIN`.
abbrev pub int16_min : ℤ
int16_min = negsuc 32767

abbrev pub is_eq_ℤ : ℤ → ℤ → Bool
is_eq_ℤ a b = pos_part a + neg_part b == pos_part b + neg_part a

abbrev pub is_degenerate : NlosSample → Bool
is_degenerate sample =
    is_eq_ℤ sample.first_path_power_db_q8 int16_min
    || is_eq_ℤ sample.rssi_db_q8 int16_min
    || is_eq_ℤ sample.first_path_power_db_q8 (pos 0)
    || is_eq_ℤ sample.rssi_db_q8 (pos 0)

-- The difference of two 16-bit numbers fits the 32 bits that it is computed in.
unfoldable pub evaluate : ℤ → NlosSample → NlosVerdict
evaluate margin sample =
    if is_degenerate sample then record { valid = false; nlos = false } else record {
      valid = true;
      nlos = ltb_ℤ margin (sample.rssi_db_q8 -ℤ sample.first_path_power_db_q8);
    }

abbrev pub IsReading : ℤ → Type 0
IsReading x = (x ≢ int16_min) × (x ≢ pos 0)

is_eq_ℤ_iff : (a b : ℤ) → (is_eq_ℤ a b ≡ true) ↔ (a ≡ b)
is_eq_ℤ_iff (pos a) (pos b) = ground arith
is_eq_ℤ_iff (pos a) (negsuc b) = ground arith
is_eq_ℤ_iff (negsuc a) (pos b) = ground arith
is_eq_ℤ_iff (negsuc a) (negsuc b) = ground arith

excess_test : (margin power rssi : ℤ) → ltb_ℤ margin (rssi -ℤ power) ≡ ltb_ℤ (power +ℤ margin) rssi
unfolding ◌-ℤ◌ ◌+ℤ◌
excess_test margin power rssi = ground arith

-- A verdict out of line of sight is given exactly for a valid sample whose first path's power and
-- the margin together are below the channel's power; and a sample is valid exactly when no reading
-- is 0 or the driver's error.
pub evaluate_iff :
    (margin : ℤ) (sample : NlosSample)
    → ((evaluate margin sample).nlos ≡ (
        (evaluate margin sample).valid
        && ltb_ℤ (sample.first_path_power_db_q8 +ℤ margin) sample.rssi_db_q8))
      × (((evaluate margin sample).valid ≡ true)
          ↔ (IsReading sample.first_path_power_db_q8 × IsReading sample.rssi_db_q8))
unfolding evaluate
evaluate_iff margin sample = (
  elim (Bool-cases (is_degenerate sample)) [
    | inl e ↦ rw e
    | inr e ↦ rw e (excess_test margin sample.first_path_power_db_q8 sample.rssi_db_q8)
  ],
  ground (
    arith,
    is_eq_ℤ_iff sample.first_path_power_db_q8 int16_min,
    is_eq_ℤ_iff sample.rssi_db_q8 int16_min,
    is_eq_ℤ_iff sample.first_path_power_db_q8 (pos 0),
    is_eq_ℤ_iff sample.rssi_db_q8 (pos 0),
  ),
)
