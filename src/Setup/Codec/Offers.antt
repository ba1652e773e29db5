-- ===== src/Setup/Codec/Offers.antt =====
-- The values that M2 selects from, and that a selected one is among those of this device.
use aliro_ccc_core.Base.{
  if-elim, ℕ, zero, suc, ◌≤◌, ◌<◌, ◌≡◌, refl, arith, true, false, [], ◌∷◌, ◌==◌, bit_and, get_or,
  ==_iff, bit_and-includes, bit_and-shift, bit_and-one, bit_and-two, not,
}
use aliro_ccc_core.Base.Words.{◌>>>◌}
use aliro_ccc_core.Core.{
  UwbChannel, channel5, channel9, HoppingMode, disabled, continuous_default, adaptive_default,
}
use aliro_ccc_core.Setup.Codec.{select_chaps, has_bit, includes}

-- The channel's bit in a mask, and the combination of bits that a mode of hopping stands for.
abbrev pub channel_bit : UwbChannel → ℕ
channel_bit channel9 = 2
channel_bit channel5 = 1

abbrev pub hopping_combo : HoppingMode → ℕ
hopping_combo disabled = 16
hopping_combo continuous_default = 10
hopping_combo adaptive_default = 6
hopping_combo _ = 32

-- By the index of the slot's bit.
abbrev pub chaps_of : ℕ → ℕ
chaps_of idx = get_or (3 ∷ 4 ∷ 6 ∷ 8 ∷ 9 ∷ 12 ∷ 24 ∷ []) idx 0

pub includes-masked : (x m c : ℕ) → includes (bit_and x m) c ≡ true → includes m c ≡ true
includes-masked x m c e =
    (==_iff (bit_and m c) c).1 (bit_and-includes x m c ((==_iff (bit_and (bit_and x m) c) c).0 e))

pub has_bit-masked : (x m idx : ℕ) → has_bit (bit_and x m) idx ≡ true → has_bit m idx ≡ true
has_bit-masked x m idx e =
    includes-masked (x >>> idx) (m >>> idx) 1 (rw (bit_and-shift idx x m) at e)

pub some_bit : (x : ℕ) → not (bit_and x 2 == 0) ≡ true → includes x 2 ≡ true
some_bit x e = ground (arith, bit_and-two x)

pub some_unit : (x : ℕ) → not (bit_and x 1 == 0) ≡ true → includes x 1 ≡ true
some_unit x e = ground (arith, bit_and-one x)

no_bit :
    (x : ℕ)
    → x < 128
    → (x == 0) ≡ false
    → has_bit x 0 ≡ false
    → has_bit x 1 ≡ false
    → has_bit x 2 ≡ false
    → has_bit x 3 ≡ false
    → has_bit x 4 ≡ false
    → has_bit x 5 ≡ false
    → has_bit x 6 ≡ false
    → ⊥
no_bit x h some e0 e1 e2 e3 e4 e5 e6 = ground (
  arith,
  bit_and-one (x >>> 0),
  bit_and-one (x >>> 1),
  bit_and-one (x >>> 2),
  bit_and-one (x >>> 3),
  bit_and-one (x >>> 4),
  bit_and-one (x >>> 5),
  bit_and-one (x >>> 6),
)

abbrev pub IsOffered : ℕ → ℕ → Type 0
IsOffered mask chaps = (idx : ℕ) × (idx < 7) × (has_bit mask idx ≡ true) × (chaps ≡ chaps_of idx)

pub select_chaps-IsOffered :
    (common : ℕ) → common < 128 → (common == 0) ≡ false → IsOffered common (select_chaps common)
unfolding select_chaps
select_chaps-IsOffered common h some =
    let P : ℕ → Type 0 = IsOffered common in
    if-elim P (has_bit common 0) (λ e. (0, omega arith, e, refl))
      λ e0.
        if-elim P (has_bit common 1) (λ e. (1, omega arith, e, refl))
          λ e1.
            if-elim P (has_bit common 2) (λ e. (2, omega arith, e, refl))
              λ e2.
                if-elim P (has_bit common 3) (λ e. (3, omega arith, e, refl))
                  λ e3.
                    if-elim P (has_bit common 4) (λ e. (4, omega arith, e, refl))
                      λ e4.
                        if-elim P (has_bit common 5) (λ e. (5, omega arith, e, refl))
                          λ e5.
                            if-elim P (has_bit common 6) (λ e. (6, omega arith, e, refl))
                              λ e6. absurd (no_bit common h some e0 e1 e2 e3 e4 e5 e6)

pub chaps_of-le : (idx : ℕ) → chaps_of idx ≤ 24
chaps_of-le zero = omega arith
chaps_of-le (suc zero) = omega arith
chaps_of-le (suc (suc zero)) = omega arith
chaps_of-le (suc (suc (suc zero))) = omega arith
chaps_of-le (suc (suc (suc (suc zero)))) = omega arith
chaps_of-le (suc (suc (suc (suc (suc zero))))) = omega arith
chaps_of-le (suc (suc (suc (suc (suc (suc zero)))))) = omega arith
chaps_of-le (suc (suc (suc (suc (suc (suc (suc n))))))) = omega arith
