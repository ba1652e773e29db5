-- ===== src/Base/Buffers.antt =====
-- Stores into a buffer one after the other, and what a run of adjacent stores leaves.
use Prim.Native.Nat.{ℕ, suc, ◌+◌, ◌≤◌}
use mathlib.Core.Path.{◌≡◌, refl, ap, sym, ◌∙◌}
use mathlib.Core.List.{List, [], ◌∷◌, ◌++◌, append_assoc}
use native.Mathlib.Omega.{arith}
use aliro_ccc_core.Base.Lists.{length, drop, write, length-append, length-drop, write-length_append}

module _ {ℓ} {A : Type ℓ} where
  -- Each item is an index and the values that are stored from there on.
  abbrev pub stores : List (ℕ × List A) → List A → List A
  stores [] buf = buf
  stores ((i, bs) ∷ rest) buf = stores rest (write i bs buf)

  abbrev pub concat : List (List A) → List A
  concat [] = []
  concat (s ∷ ss) = s ++ concat ss

  abbrev pub adjacent : ℕ → List (List A) → List (ℕ × List A)
  adjacent i [] = []
  adjacent i (s ∷ ss) = (i, s) ∷ adjacent (i + length s) ss

module _ {ℓ} {A : Type ℓ} where
  drop-nil : (n : ℕ) → ◌≡◌ {A = List A} (drop n []) []
  drop-nil ℕ.zero = refl
  drop-nil (suc n) = refl

  pub drop-drop : (m n : ℕ) (xs : List A) → drop m (drop n xs) ≡ drop (n + m) xs
  drop-drop m ℕ.zero xs = ap (λ k. drop k xs) (omega arith)
  drop-drop m (suc n) [] = drop-nil m ∙ sym (drop-nil (suc n + m))
  drop-drop m (suc n) (x ∷ xs) =
      drop-drop m n xs ∙ ap (λ k. drop k (x ∷ xs)) {x = suc (n + m)} (omega arith)

  pub stores-adjacent :
      (ss : List (List A)) (i : ℕ) (pre xs : List A)
      → i ≡ length pre
      → length (concat ss) ≤ length xs
      → stores (adjacent i ss) (pre ++ xs) ≡ pre ++ (concat ss ++ drop (length (concat ss)) xs)
  stores-adjacent [] i pre xs e h = refl
  stores-adjacent (s ∷ ss) i pre xs e h =
      ap (stores (adjacent (i + length s) ss)) (
        rw e (
          write-length_append pre s xs (omega (arith, length-append s (concat ss)))
          ∙ sym (append_assoc pre s (drop (length s) xs))))
      ∙ stores-adjacent ss (i + length s) (pre ++ s) (drop (length s) xs)
          (omega (arith, length-append pre s))
          (omega (arith, length-append s (concat ss), length-drop (length s) xs))
      ∙ rw (append_assoc, append_assoc, length-append, drop-drop)
