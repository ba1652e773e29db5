-- ===== src/Base/Bits.antt =====
-- `|` of two numbers that share no digit is their sum.
use Prim.Native.Nat.{
  ℕ, zero, suc, ◌+◌, ◌*◌, ◌/◌, ◌%◌, ◌^◌, ◌≤◌, ◌<◌, max, bit_or, bit_xor, digits, bitwise, differ,
  bit_or-bitwise, bit_xor-bitwise,
}
use mathlib.Core.Path.{◌≡◌, refl, ap}
use mathlib.Core.Logic.{◌⊎◌, inl, inr}
use native.Mathlib.Omega.{arith}
use native.Mathlib.Nat.{pow-suc}

-- One digit of an operation on digits, for any rule `f` of two digits and `z` of what is left when
-- the first number has none.
module _ (z : ℕ → ℕ) (f : ℕ → ℕ → ℕ) where
  any_count : (b a m n : ℕ) → a ≤ m → a ≤ n → digits z f m a b ≡ digits z f n a b
  any_count b zero zero zero hm hn = refl
  any_count b zero zero (suc n) hm hn = refl
  any_count b zero (suc m) zero hm hn = refl
  any_count b zero (suc m) (suc n) hm hn = refl
  any_count b (suc a) zero n hm hn = absurd (omega arith)
  any_count b (suc a) (suc m) zero hm hn = absurd (omega arith)
  any_count b (suc a) (suc m) (suc n) hm hn =
      ap (λ (t : ℕ). t * 2 + f (suc a % 2) (b % 2))
        (any_count (b / 2) (suc a / 2) m n (omega arith) (omega arith))

  pub one_digit :
      (x m : ℕ)
      → bitwise z f (suc x) m ≡ bitwise z f (suc x / 2) (m / 2) * 2 + f (suc x % 2) (m % 2)
  one_digit x m =
      ap (λ (t : ℕ). t * 2 + f (suc x % 2) (m % 2))
        (any_count (m / 2) (suc x / 2) x (suc x / 2) (omega arith) (omega arith))

pub zero-bit_or : (b : ℕ) → bit_or 0 b ≡ b
zero-bit_or b = bit_or-bitwise 0 b

bit_or_step : (x m : ℕ) → bit_or x m ≡ bit_or (x / 2) (m / 2) * 2 + max (x % 2) (m % 2)
bit_or_step zero m = omega (arith, zero-bit_or m, zero-bit_or (m / 2))
bit_or_step (suc x) m =
    rw (bit_or-bitwise (suc x) m, bit_or-bitwise (suc x / 2) (m / 2)) (one_digit (λ y. y) max x m)

zero-bit_xor : (b : ℕ) → bit_xor 0 b ≡ b
zero-bit_xor b = bit_xor-bitwise 0 b

bit_xor_step : (a b : ℕ) → bit_xor a b ≡ bit_xor (a / 2) (b / 2) * 2 + differ (a % 2) (b % 2)
bit_xor_step zero b = rw (zero-bit_xor b, zero-bit_xor (b / 2)) (halves b)
  where
    halves : (b : ℕ) → b ≡ b / 2 * 2 + b % 2
    halves b = omega arith
bit_xor_step (suc a) b =
    rw (bit_xor-bitwise (suc a) b, bit_xor-bitwise (suc a / 2) (b / 2))
      (one_digit (λ y. y) differ a b)

shift-suc : (n places : ℕ) → n * 2 ^ suc places ≡ 2 * (n * 2 ^ places)
shift-suc n places = grind (arith, pow-suc 2 places)

-- A number below `2 ^ k` with a multiple of `2 ^ k`, in either order.
pub bit_or-shifted : (k a q : ℕ) → a < 2 ^ k → bit_or a (q * 2 ^ k) ≡ a + q * 2 ^ k
bit_or-shifted zero a q h = ground (arith, zero-bit_or (q * 2 ^ zero))
bit_or-shifted (suc k) a q h = ground (
  arith,
  bit_or_step a (q * 2 ^ suc k),
  shift-suc q k,
  pow-suc 2 k,
  bit_or-shifted k (a / 2) q (omega (arith, pow-suc 2 k)),
)

bit_or-zero : (n a : ℕ) → a ≤ n → bit_or a 0 ≡ a
bit_or-zero n zero h = refl
bit_or-zero zero (suc a) h = absurd (omega arith)
bit_or-zero (suc n) (suc a) h =
    omega (arith, bit_or_step (suc a) 0, bit_or-zero n (suc a / 2) (omega arith))

pub shifted-bit_or : (k q a : ℕ) → a < 2 ^ k → bit_or (q * 2 ^ k) a ≡ q * 2 ^ k + a
shifted-bit_or zero q a h = ground (arith, bit_or-zero (q * 2 ^ zero) (q * 2 ^ zero))
shifted-bit_or (suc k) q a h = ground (
  arith,
  bit_or_step (q * 2 ^ suc k) a,
  shift-suc q k,
  pow-suc 2 k,
  shifted-bit_or k q (a / 2) (omega (arith, pow-suc 2 k)),
)

-- Two digits below 2.
digit_cases : (d : ℕ) → d < 2 → (d ≡ 0) ⊎ (d ≡ 1)
digit_cases d h = omega arith

differ-lt : (d e : ℕ) → d < 2 → e < 2 → differ d e < 2
differ-lt d e hd he = elim (digit_cases d hd) [
  | inl p ↦ rw p (omega arith)
  | inr p ↦ elim (digit_cases e he) [
    | inl q ↦ rw (p, q) (omega arith)
    | inr q ↦ rw (p, q) (omega arith)
  ]
]

differ-cancel : (d e : ℕ) → d < 2 → e < 2 → differ (differ d e) e ≡ d
differ-cancel d e hd he = elim (digit_cases d hd) [
  | inl p ↦ elim (digit_cases e he) [ inl q ↦ rw (p, q) | inr q ↦ rw (p, q) ]
  | inr p ↦ elim (digit_cases e he) [ inl q ↦ rw (p, q) | inr q ↦ rw (p, q) ]
]

bit_xor-cancel_below : (n a b : ℕ) → a ≤ n → b ≤ n → bit_xor (bit_xor a b) b ≡ a
bit_xor-cancel_below zero zero zero p q = refl
bit_xor-cancel_below zero (suc a) b p q = absurd (omega arith)
bit_xor-cancel_below zero zero (suc b) p q = absurd (omega arith)
bit_xor-cancel_below (suc n) a b p q = ground (
  arith,
  bit_xor_step a b,
  bit_xor_step (bit_xor a b) b,
  differ-lt (a % 2) (b % 2) (omega arith) (omega arith),
  differ-cancel (a % 2) (b % 2) (omega arith) (omega arith),
  bit_xor-cancel_below n (a / 2) (b / 2) (omega arith) (omega arith),
)

-- `^` with the same number twice.
pub bit_xor-cancel : (a b : ℕ) → bit_xor (bit_xor a b) b ≡ a
bit_xor-cancel a b = bit_xor-cancel_below (a + b) a b (omega arith) (omega arith)

pub bit_xor-eq-zero : (a b : ℕ) → bit_xor a b ≡ 0 → a ≡ b
bit_xor-eq-zero a b h = ground (arith, bit_xor-cancel a b, zero-bit_xor b)

bit_xor_self_below : (n a : ℕ) → a ≤ n → bit_xor a a ≡ 0
bit_xor_self_below zero zero h = refl
bit_xor_self_below zero (suc a) h = absurd (omega arith)
bit_xor_self_below (suc n) a h = elim (digit_cases (a % 2) (omega arith)) [
  | inl p ↦ omega (arith, step p, bit_xor_self_below n (a / 2) (omega arith))
  | inr p ↦ omega (arith, step p, bit_xor_self_below n (a / 2) (omega arith))
]
  where
    step : {d : ℕ} → a % 2 ≡ d → bit_xor a a ≡ bit_xor (a / 2) (a / 2) * 2 + differ d d
    step e = rw e at (bit_xor_step a a)

pub bit_xor_self : (a : ℕ) → bit_xor a a ≡ 0
bit_xor_self a = bit_xor_self_below a a (omega arith)

bit_or-eq-zero_below : (n a b : ℕ) → a ≤ n → b ≤ n → bit_or a b ≡ 0 → (a ≡ 0) × (b ≡ 0)
bit_or-eq-zero_below zero a b p q h = omega arith
bit_or-eq-zero_below (suc n) a b p q h =
    let halves =
      bit_or-eq-zero_below n (a / 2) (b / 2) (omega arith) (omega arith)
        (omega (arith, bit_or_step a b)) in
    omega (arith, bit_or_step a b, halves)

pub bit_or-eq-zero : (a b : ℕ) → bit_or a b ≡ 0 → (a ≡ 0) × (b ≡ 0)
bit_or-eq-zero a b h = bit_or-eq-zero_below (a + b) a b (omega arith) (omega arith) h

bit_xor-lt_below : (k a b : ℕ) → a < 2 ^ k → b < 2 ^ k → bit_xor a b < 2 ^ k
bit_xor-lt_below zero a b p q = let e : a ≡ 0 = omega arith in rw e (rw (zero-bit_xor b) q)
bit_xor-lt_below (suc k) a b p q = omega (
  arith,
  bit_xor_step a b,
  pow-suc 2 k,
  differ-lt (a % 2) (b % 2) (omega arith) (omega arith),
  bit_xor-lt_below k (a / 2) (b / 2) (omega (arith, pow-suc 2 k)) (omega (arith, pow-suc 2 k)),
)

pub bit_xor-byte : (a b : ℕ) → a < 256 → b < 256 → bit_xor a b < 256
bit_xor-byte a b p q = bit_xor-lt_below 8 a b p q
