-- ===== src/Ranging/Stability/Gating.antt =====
-- When the detector's verdict gates an angle, over a whole history.
use aliro_ccc_core.Base.{
  ℕ, suc, ◌+◌, ◌-◌, ◌≤◌, ◌<◌, ◌≡◌, refl, arith, Bool, true, false, ◌||◌, ◌&&◌, List, length, [],
  ◌∷◌, ltb, if◌then◌else◌,
}
use aliro_ccc_core.Base.Int.{ℤ}
use aliro_ccc_core.Ranging.Stability.{
  AoaStabilityConfig, AoaStabilityDetector, reset_detector, ingest_angle, is_jump,
}

-- The detector after a history of angles since a reset, the newest first.
pub ingest_angles : AoaStabilityConfig → List ℤ → AoaStabilityDetector
ingest_angles config [] = reset_detector config
ingest_angles config (angle ∷ older) = (ingest_angle config (ingest_angles config older) angle).0

-- Whether the angle after this history jumps from the reference.
abbrev jumps : AoaStabilityConfig → List ℤ → ℤ → Bool
jumps config older angle = is_jump config (ingest_angles config older) angle

-- Whether one of the newest `n` angles was a jump.
pub jumped_within : AoaStabilityConfig → ℕ → List ℤ → Bool
jumped_within config n [] = false
jumped_within config n (angle ∷ older) =
    let before = jumped_within config (n - 1) older in
    ltb 0 n && (jumps config older angle || before)

ingest_angle-hold :
    (config : AoaStabilityConfig) (detector : AoaStabilityDetector) (angle : ℤ)
    → (ingest_angle config detector angle).0.hold
      ≡ (if is_jump config detector angle then config.hold_blocks else detector.hold) - 1
unfolding ingest_angle
ingest_angle-hold config detector angle = refl

hold_bound :
    (config : AoaStabilityConfig) (history : List ℤ)
    → (ingest_angles config history).hold ≤ config.hold_blocks - 1
unfolding ingest_angles
hold_bound config [] = omega arith
hold_bound config (angle ∷ older) =
    ground
      (arith, hold_bound config older, ingest_angle-hold config (ingest_angles config older) angle)

hold_test :
    (n d hold_blocks hold : ℕ) (jump before : Bool)
    → n + d ≡ hold_blocks - 1
    → hold ≤ hold_blocks - 1
    → (0 < n → before ≡ ltb (suc d) hold)
    → (ltb 0 n && (jump || before)) ≡ ltb d ((if jump then hold_blocks else hold) - 1)
hold_test n d hold_blocks hold true before e le h = ground arith
hold_test n d hold_blocks hold false before e le h = ground arith

jumped_within-hold :
    (config : AoaStabilityConfig) (history : List ℤ) (n d : ℕ)
    → n + d ≡ config.hold_blocks - 1
    → jumped_within config n history ≡ ltb d (ingest_angles config history).hold
unfolding ingest_angles jumped_within
jumped_within-hold config [] n d e = ground arith
jumped_within-hold config (angle ∷ older) n d e =
    rw (ingest_angle-hold config (ingest_angles config older) angle) (
      hold_test n d config.hold_blocks (ingest_angles config older).hold (jumps config older angle)
        (jumped_within config (n - 1) older) e (hold_bound config older)
        (λ some_n. jumped_within-hold config older (n - 1) (suc d) (omega arith)))

warmup_left :
    (config : AoaStabilityConfig) (history : List ℤ)
    → (ingest_angles config history).warmup ≡ config.warmup_blocks - length history
unfolding ingest_angles ingest_angle
warmup_left config [] = omega arith
warmup_left config (angle ∷ older) = ground (arith, warmup_left config older)

gated_test :
    (hold_blocks hold : ℕ) (jump before : Bool)
    → (0 < hold_blocks → before ≡ ltb 0 hold)
    → hold ≤ hold_blocks - 1
    → ltb 0 (if jump then hold_blocks else hold) ≡ (ltb 0 hold_blocks && (jump || before))
gated_test hold_blocks hold true before e h = ground arith
gated_test hold_blocks hold false before e h = ground arith

warmup_test : (warmup seen : ℕ) → ltb 0 (warmup - seen) ≡ ltb seen warmup
warmup_test warmup seen = ground arith

-- The verdict on the next angle gates it exactly when fewer angles than the warm-up came before it,
-- or one of the newest `hold_blocks` angles, itself among them, jumped from the reference.
pub ingest_angle-gated :
    (config : AoaStabilityConfig) (older : List ℤ) (angle : ℤ)
    → (ingest_angle config (ingest_angles config older) angle).1.gated ≡ (
        ltb (length older) config.warmup_blocks
        || jumped_within config config.hold_blocks (angle ∷ older))
unfolding ingest_angle jumped_within
ingest_angle-gated config older angle = rw (
  warmup_left config older,
  warmup_test config.warmup_blocks (length older),
  gated_test config.hold_blocks (ingest_angles config older).hold (jumps config older angle)
      (jumped_within config (config.hold_blocks - 1) older)
      (λ some_n. jumped_within-hold config older (config.hold_blocks - 1) 0 (omega arith))
      (hold_bound config older),
)
