-- ===== src/Base/Masks.antt =====
-- `&` of numbers: digit by digit, under shifts, and as a test for bits.
use Prim.Native.Nat.{
  ℕ, zero, suc, ◌+◌, ◌-◌, ◌*◌, ◌/◌, ◌%◌, ◌^◌, ◌≤◌, ◌<◌, min, bit_and, bit_and-bitwise,
}
use mathlib.Core.Path.{◌≡◌, ap, sym, ◌∙◌}
use native.Mathlib.Omega.{arith}
use native.Mathlib.Nat.{pow-suc, div-one, div-div-eq-div-mul}
use aliro_ccc_core.Base.Bits.{one_digit}

no_digit : (m : ℕ) → bit_and 0 m ≡ 0
no_digit m = bit_and-bitwise 0 m

-- The lowest digit, and the other ones.
lowest : (x m : ℕ) → bit_and x m ≡ bit_and (x / 2) (m / 2) * 2 + min (x % 2) (m % 2)
lowest zero m = omega (arith, no_digit m, no_digit (m / 2))
lowest (suc x) m =
    rw (bit_and-bitwise (suc x) m, bit_and-bitwise (suc x / 2) (m / 2))
      (one_digit (λ y. zero) min x m)

bit_and-le_n : (n a b : ℕ) → a ≤ n → (bit_and a b ≤ a) × (bit_and a b ≤ b)
bit_and-le_n zero zero b h = omega (arith, no_digit b)
bit_and-le_n zero (suc a) b h = absurd (omega arith)
bit_and-le_n (suc n) zero b h = omega (arith, no_digit b)
bit_and-le_n (suc n) (suc a) b h =
    omega (arith, lowest (suc a) b, bit_and-le_n n (suc a / 2) (b / 2) (omega arith))

pub bit_and-le : (a b : ℕ) → (bit_and a b ≤ a) × (bit_and a b ≤ b)
bit_and-le a b = bit_and-le_n a a b (omega arith)

pub bit_and-zero : (a : ℕ) → bit_and a 0 ≡ 0
bit_and-zero a = omega (arith, bit_and-le a 0)

pub bit_and-one : (x : ℕ) → bit_and x 1 ≡ x % 2
bit_and-one x = omega (arith, lowest x 1, bit_and-le (x / 2) 0)

pub bit_and-two : (a : ℕ) → bit_and a 2 ≡ a / 2 % 2 * 2
bit_and-two a = omega (arith, lowest a 2, bit_and-one (a / 2))

-- The digits of a mask that a masked number has, the mask has.
includes_n : (n x m c : ℕ) → c ≤ n → bit_and (bit_and x m) c ≡ c → bit_and m c ≡ c
includes_n zero x m zero h e = bit_and-zero m
includes_n zero x m (suc c) h e = absurd (omega arith)
includes_n (suc n) x m zero h e = bit_and-zero m
includes_n (suc n) x m (suc c) h e = omega (
  arith,
  lowest m (suc c),
  lowest (bit_and x m) (suc c),
  lowest x m,
  includes_n n (x / 2) (m / 2) (suc c / 2) (omega arith) (halves x m (suc c) e),
)
  where
    halves :
        (x m c : ℕ)
        → bit_and (bit_and x m) c ≡ c
        → bit_and (bit_and (x / 2) (m / 2)) (c / 2) ≡ c / 2
    halves x m c e =
        ap (λ t. bit_and t (c / 2)) {x = bit_and (x / 2) (m / 2)} {y = bit_and x m / 2}
          (omega (arith, lowest x m))
        ∙ omega (arith, lowest (bit_and x m) c)

pub bit_and-includes : (x m c : ℕ) → bit_and (bit_and x m) c ≡ c → bit_and m c ≡ c
bit_and-includes x m c e = includes_n c x m c (omega arith) e

halved : (x k : ℕ) → x / 2 ^ suc k ≡ x / 2 / 2 ^ k
halved x k =
    ap (λ t. x / t) {x = 2 ^ suc k} (omega (arith, pow-suc 2 k))
    ∙ sym (div-div-eq-div-mul x 2 (2 ^ k))

pub bit_and-shift : (k x m : ℕ) → bit_and x m / 2 ^ k ≡ bit_and (x / 2 ^ k) (m / 2 ^ k)
bit_and-shift zero x m = rw (div-one (bit_and x m), div-one x, div-one m)
bit_and-shift (suc k) x m =
    rw (halved (bit_and x m) k, halved x k, halved m k)
      (ap (λ t. t / 2 ^ k) {x = bit_and x m / 2} (omega (arith, lowest x m))
        ∙ bit_and-shift k (x / 2) (m / 2))

-- `k` ones.
abbrev pub ones : ℕ → ℕ
ones zero = 0
ones (suc k) = 2 * ones k + 1

bit_and-ones : (k x : ℕ) → x < 2 ^ k → bit_and x (ones k) ≡ x
bit_and-ones zero x h = omega (arith, bit_and-zero x)
bit_and-ones (suc k) x h = omega (
  arith,
  lowest x (ones (suc k)),
  ap (bit_and (x / 2)) {x = ones (suc k) / 2} {y = ones k} (omega arith),
  bit_and-ones k (x / 2) (omega (arith, pow-suc 2 k)),
)

-- The lowest of 32 bits is cleared.
pub bit_and-even : (x : ℕ) → x < 2 ^ 32 → bit_and x 0xfffffffe ≡ x - x % 2
bit_and-even x h = omega (arith, lowest x 0xfffffffe, bit_and-ones 31 (x / 2) (omega arith))
