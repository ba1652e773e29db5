-- ===== src/Checks/Ranging.antt =====
-- Runs of the ranging estimators.
use aliro_ccc_core.Base.{
  ◌*◌, ◌/◌, ◌≡◌, ◌↔◌, refl, arith, true, ◌&&◌, ◌||◌, ◌==◌, List, [], ◌∷◌, if◌then◌else◌, ltb,
}
use aliro_ccc_core.Base.Int.{ℤ, pos, negsuc, ◌+ℤ◌, ltb_ℤ}
use aliro_ccc_core.Core.{ok, err, invalid_parameter}
use aliro_ccc_core.Ranging.Distance.{DoubleSidedTwrTimestamps, total_interval, calculate_distance}
use aliro_ccc_core.Ranging.Distance.Exact.{calculate_distance_ideal}
use aliro_ccc_core.Ranging.Consensus.{Sample}
use aliro_ccc_core.Ranging.Nlos.{NlosSample, evaluate, evaluate_iff, IsReading, nlos_margin_db_q8}
use aliro_ccc_core.Ranging.Stability.{default_stability_config, ingest_angle}
use aliro_ccc_core.Ranging.Stability.Gating.{ingest_angles, jumped_within, ingest_angle-gated}

abbrev an_exchange : DoubleSidedTwrTimestamps
an_exchange = record { round1_dtu = 2000; reply1_dtu = 1000; round2_dtu = 3000; reply2_dtu = 2000 }

calculate_distance_ideal_example : calculate_distance an_exchange (negsuc 9) ≡ (
    if total_interval an_exchange == 0
    then err invalid_parameter
    else ok (pos (500 * 4692 / 1000) +ℤ negsuc 9))
calculate_distance_ideal_example =
    calculate_distance_ideal an_exchange 500 (negsuc 9)
      (record {
        round1 = omega arith;
        reply1 = omega arith;
        round2 = omega arith;
        reply2 = omega arith;
      })
      (record { first = refl; second = refl }) (omega arith) (omega arith)

-- Newest first: three that agree, after an implausible one.
abbrev a_sample : ℤ → Sample
a_sample d = record { distance = d; driver_verdict = pos 0; sts_quality_metric = pos 60 }

abbrev a_history : List Sample
a_history =
    a_sample (pos 1200) ∷ a_sample (pos 1000) ∷ a_sample (negsuc 50) ∷ a_sample (negsuc 9000) ∷ []

abbrev three_samples : List Sample
three_samples = a_sample (pos 1200) ∷ a_sample (pos 1100) ∷ a_sample (pos 1000) ∷ []

abbrev a_nlos_sample : NlosSample
a_nlos_sample = record { first_path_power_db_q8 = negsuc 23999; rssi_db_q8 = negsuc 19999 }

evaluate_iff_example :
    ((evaluate nlos_margin_db_q8 a_nlos_sample).nlos ≡ (
      (evaluate nlos_margin_db_q8 a_nlos_sample).valid
      && ltb_ℤ (negsuc 23999 +ℤ nlos_margin_db_q8) (negsuc 19999)))
    × (((evaluate nlos_margin_db_q8 a_nlos_sample).valid ≡ true)
        ↔ (IsReading (negsuc 23999) × IsReading (negsuc 19999)))
evaluate_iff_example = evaluate_iff nlos_margin_db_q8 a_nlos_sample

abbrev some_angles : List ℤ
some_angles = pos 4000 ∷ pos 100 ∷ pos 0 ∷ pos 50 ∷ pos 0 ∷ []

ingest_angle-gated_example :
    (ingest_angle default_stability_config
      (ingest_angles default_stability_config some_angles)
      (pos 4100)).1.gated
    ≡ (ltb 5 4 || jumped_within default_stability_config 10 (pos 4100 ∷ some_angles))
ingest_angle-gated_example = ingest_angle-gated default_stability_config some_angles (pos 4100)
