-- ===== src/Ranging/Distance/Exact.antt =====
-- When the estimate is exact.
use aliro_ccc_core.Base.{
  ℕ, ◌+◌, ◌-◌, ◌*◌, ◌/◌, ◌^◌, ◌≤◌, ◌<◌, ◌≡◌, refl, ◌∙◌, arith, ◌==◌, if◌then◌else◌, false,
  Bool-cases, inl, inr,
}
use aliro_ccc_core.Base.Int.{
  ℤ, pos, negsuc, ◌+ℤ◌, ◌-ℤ◌, ◌*ℤ◌, quot, wrap32, wrap64, wrap32_fits, wrap64_fits, abs, IsInt32,
  IsInt64,
}
use native.Mathlib.Nat.{div-le_of_le-mul, div-eq_of_eq-mul_left}
use aliro_ccc_core.Core.{ok, err, invalid_parameter}
use aliro_ccc_core.Ranging.Distance.{
  DoubleSidedTwrTimestamps, total_interval, calculate_signed_tof_ticks, calculate_distance,
}

-- Each interval below 2 ^ 31 ticks, which is 33 ms.
pub record IsShort (ts : DoubleSidedTwrTimestamps) : Type 0 where
  pub round1 : ts.round1_dtu < 2 ^ 31
  pub reply1 : ts.reply1_dtu < 2 ^ 31
  pub round2 : ts.round2_dtu < 2 ^ 31
  pub reply2 : ts.reply2_dtu < 2 ^ 31

product-lt : (a b : ℕ) → a < 2 ^ 31 → b < 2 ^ 31 → a * b < 2 ^ 62
product-lt a b ha hb = grind arith

quot_below : (a b m s : ℕ) → b < 2 ^ 31 → 0 < s → a ≤ s → m ≤ a * b → m / s < 2 ^ 31
quot_below a b m s hb hs ha hm = omega (arith, div-le_of_le-mul s {m = m} {n = b} (grind arith))

-- The quotient of a difference is bounded by those of its parts.
quot-IsInt32 :
    (x y s : ℕ)
    → x / s < 2 ^ 31
    → y / s < 2 ^ 31
    → ((m : ℕ) → m ≤ x → m / s < 2 ^ 31)
    → ((m : ℕ) → m ≤ y → m / s < 2 ^ 31)
    → IsInt32 (quot (pos x -ℤ pos y) s)
unfolding quot ◌-ℤ◌
quot-IsInt32 x y s hx hy fx fy = ground (arith, fx (x - y), fy (y - x))

difference-IsInt64 : (x y : ℕ) → x < 2 ^ 62 → y < 2 ^ 62 → IsInt64 (pos x -ℤ pos y)
unfolding ◌-ℤ◌
difference-IsInt64 x y hx hy = ground arith

products-fit :
    (a b c d s : ℕ)
    → a < 2 ^ 31
    → b < 2 ^ 31
    → c < 2 ^ 31
    → d < 2 ^ 31
    → s ≡ a + b + c + d
    → 0 < s
    → (wrap64 (wrap64 (pos (a * b)) -ℤ wrap64 (pos (c * d))) ≡ (pos (a * b) -ℤ pos (c * d)))
      × IsInt32 (quot (pos (a * b) -ℤ pos (c * d)) s)
products-fit a b c d s ha hb hc hd e some =
    let x = product-lt a b ha hb in
    let y = product-lt c d hc hd in
    (
      rw (
        wrap64_fits (pos (a * b)) (ground arith),
        wrap64_fits (pos (c * d)) (ground arith),
        wrap64_fits (pos (a * b) -ℤ pos (c * d)) (difference-IsInt64 (a * b) (c * d) x y),
      ),
      quot-IsInt32 (a * b) (c * d) s (quot_below a b (a * b) s hb some (omega arith) (omega arith))
          (quot_below c d (c * d) s hd some (omega arith) (omega arith))
          (λ m h. quot_below a b m s hb some (omega arith) h)
          (λ m h. quot_below c d m s hd some (omega arith) h),
    )

-- For short intervals no product wraps and no conversion cuts: the ticks are the quotient of the
-- formula in the header, rounded towards zero.
pub calculate_signed_tof_ticks_exact :
    (ts : DoubleSidedTwrTimestamps)
    → IsShort ts
    → 0 < total_interval ts
    → calculate_signed_tof_ticks ts
      ≡ quot
          (pos (ts.round1_dtu * ts.round2_dtu) -ℤ pos (ts.reply1_dtu * ts.reply2_dtu))
          (total_interval ts)
unfolding calculate_signed_tof_ticks
calculate_signed_tof_ticks_exact ts v some =
    let fit =
      products-fit ts.round1_dtu ts.round2_dtu ts.reply1_dtu ts.reply2_dtu (total_interval ts)
        v.round1 v.round2 v.reply1 v.reply2 (omega arith) some in
    elim (Bool-cases (total_interval ts == 0)) [
      | inl e ↦ ground arith
      | inr e ↦ rw (
        e,
        fit.0,
        wrap32_fits
            (quot (pos (ts.round1_dtu * ts.round2_dtu) -ℤ pos (ts.reply1_dtu * ts.reply2_dtu))
              (total_interval ts))
            fit.1,
      )
    ]

-- Both clocks exact: each round lasts the other side's reply and the flight there and back.
pub record IsIdeal (ts : DoubleSidedTwrTimestamps) (flight : ℕ) : Type 0 where
  pub first : ts.round1_dtu ≡ ts.reply1_dtu + 2 * flight
  pub second : ts.round2_dtu ≡ ts.reply2_dtu + 2 * flight

ideal_numerator :
    (p q t : ℕ) → (p + 2 * t) * (q + 2 * t) ≡ t * (p + 2 * t + (q + 2 * t) + p + q) + p * q
ideal_numerator p q t = grind arith

quot-exact : (t s y x : ℕ) → 0 < s → x ≡ t * s + y → quot (pos x -ℤ pos y) s ≡ pos t
unfolding quot ◌-ℤ◌
quot-exact t s y x some e =
    ground (arith, div-eq_of_eq-mul_left {n = s} {m = t * s} {k = t} some refl)

-- In an exchange with exact clocks and some interval above 0, where each round trip lasts the reply
-- of the other side and twice the time of flight, the ticks are that time, with no rounding.
pub calculate_signed_tof_ticks_ideal :
    (ts : DoubleSidedTwrTimestamps) (flight : ℕ)
    → IsShort ts
    → IsIdeal ts flight
    → 0 < total_interval ts
    → calculate_signed_tof_ticks ts ≡ pos flight
calculate_signed_tof_ticks_ideal ts flight v ideal some =
    calculate_signed_tof_ticks_exact ts v some
    ∙ quot-exact flight (total_interval ts) (ts.reply1_dtu * ts.reply2_dtu)
        (ts.round1_dtu * ts.round2_dtu) some
        (rw (ideal.first, ideal.second, ideal_numerator ts.reply1_dtu ts.reply2_dtu flight))

sum-IsInt32 :
    (flight : ℕ) (bias : ℤ)
    → flight < 2 ^ 28
    → abs bias < 2 ^ 28
    → IsInt32 (pos (flight * 4692 / 1000) +ℤ bias)
unfolding ◌+ℤ◌
sum-IsInt32 flight (pos n) h hb = ground arith
sum-IsInt32 flight (negsuc n) h hb = ground arith

quot-product : (flight : ℕ) → quot (pos flight *ℤ pos 4692) 1000 ≡ pos (flight * 4692 / 1000)
unfolding quot ◌*ℤ◌
quot-product flight = ground arith

biased :
    (flight : ℕ) (bias : ℤ)
    → flight < 2 ^ 28
    → abs bias < 2 ^ 28
    → wrap32 (wrap32 (quot (pos flight *ℤ pos 4692) 1000) +ℤ bias)
      ≡ pos (flight * 4692 / 1000) +ℤ bias
biased flight bias h hb = rw (
  quot-product flight,
  wrap32_fits (pos (flight * 4692 / 1000)) (ground arith),
  wrap32_fits (pos (flight * 4692 / 1000) +ℤ bias) (sum-IsInt32 flight bias h hb),
)

no_interval :
    (ts : DoubleSidedTwrTimestamps) → (total_interval ts == 0) ≡ false → 0 < total_interval ts
no_interval ts e = ground arith

-- In an exchange with exact clocks, with each of the four intervals below 2 ^ 31 ticks, a time of
-- flight below 2 ^ 28 ticks and a bias between -2 ^ 28 and 2 ^ 28, both excluded, the estimate is the
-- flight's distance, at 4.692 mm a tick and rounded down, plus the bias; it fails exactly when all
-- intervals are 0.
pub calculate_distance_ideal :
    (ts : DoubleSidedTwrTimestamps) (flight : ℕ) (bias : ℤ)
    → IsShort ts
    → IsIdeal ts flight
    → flight < 2 ^ 28
    → abs bias < 2 ^ 28
    → calculate_distance ts bias ≡ (
        if total_interval ts == 0
        then err invalid_parameter
        else ok (pos (flight * 4692 / 1000) +ℤ bias))
unfolding calculate_distance
calculate_distance_ideal ts flight bias v ideal h hb = elim (Bool-cases (total_interval ts == 0)) [
  | inl e ↦ rw e
  | inr e ↦ rw (
    e,
    calculate_signed_tof_ticks_ideal ts flight v ideal (no_interval ts e),
    biased flight bias h hb,
  )
]
