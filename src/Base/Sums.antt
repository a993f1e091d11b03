-- ===== src/Base/Sums.antt =====
-- Weighted sums over a list and predicates on its elements; both ignore the order.
use Prim.Native.Nat.{ℕ, ◌+◌}
use mathlib.Core.Path.{◌≡◌, ap, ◌∙◌, refl}
use mathlib.Core.Logic.{∥∥₁_elim}
use mathlib.Core.List.{List, [], ◌∷◌, ◌++◌, Perm, Permᴰ}
use native.Mathlib.Nat.{ℕ_set}
use native.Mathlib.Omega.{arith}

module _ {ℓ} {A : Type ℓ} where
  abbrev pub sum_by : (A → ℕ) → List A → ℕ
  sum_by w [] = 0
  sum_by w (x ∷ xs) = w x + sum_by w xs

  abbrev pub All {κ} : (A → Type κ) → List A → Type κ
  All P [] = Unit
  All P (x ∷ xs) = P x × All P xs

  sum_by-Permᴰ : (w : A → ℕ) {xs ys : List A} → Permᴰ xs ys → sum_by w xs ≡ sum_by w ys
  sum_by-Permᴰ w Permᴰ.nil = refl
  sum_by-Permᴰ w (Permᴰ.cons e p) = omega (arith, ap w e, sum_by-Permᴰ w p)
  sum_by-Permᴰ w (Permᴰ.swap e f) = omega (arith, ap w e, ap w f)
  sum_by-Permᴰ w (Permᴰ.trans p q) = sum_by-Permᴰ w p ∙ sum_by-Permᴰ w q

  pub sum_by-perm : (w : A → ℕ) {xs ys : List A} → Perm xs ys → sum_by w xs ≡ sum_by w ys
  sum_by-perm w p = ∥∥₁_elim p (ℕ_set _ _) (sum_by-Permᴰ w)

  pub sum_by-append : (w : A → ℕ) (xs ys : List A) → sum_by w (xs ++ ys) ≡ sum_by w xs + sum_by w ys
  sum_by-append w [] ys = omega arith
  sum_by-append w (x ∷ xs) ys = omega (arith, sum_by-append w xs ys)

pub All-mono {ℓ κ ν} :
    {A : Type ℓ} {P : A → Type κ} {Q : A → Type ν}
    → ((a : A) → P a → Q a)
    → (l : List A) → All P l
    → All Q l
All-mono f [] h = tt
All-mono f (x ∷ xs) h = (f x h.0, All-mono f xs h.1)
