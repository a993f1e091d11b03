-- ===== src/Base/Options.antt =====
-- Predicates on what an optional value holds.
use mathlib.Core.Path.{◌≡◌}
use mathlib.Core.Option
use mathlib.Core.Option.{Option, none, some}

module _ {ℓ κ} {A : Type ℓ} where
  -- `P` of what is there, if anything is.
  abbrev pub OnSome : (A → Type κ) → Option A → Type κ
  OnSome P none = Unit
  OnSome P (some a) = P a

  pub OnSome_at : (P : A → Type κ) (o : Option A) {a : A} → OnSome P o → o ≡ some a → P a
  OnSome_at P o h e = rw e at h

pub OnSome-mono {ℓ κ ν} :
    {A : Type ℓ} {P : A → Type κ} {Q : A → Type ν}
    → ((a : A) → P a → Q a)
    → (o : Option A) → OnSome P o
    → OnSome Q o
OnSome-mono f none h = tt
OnSome-mono f (some a) h = f a h

pub OnSome-map {ℓ ν κ} :
    {A : Type ℓ} {B : Type ν} (P : B → Type κ) (f : A → B) (o : Option A)
    → OnSome (λ a. P (f a)) o
    → OnSome P (Option.map f o)
OnSome-map P f none h = tt
OnSome-map P f (some a) h = h

-- For `do` blocks on optional values.
infixl 5 ◌>>=◌
abbrev pub ◌>>=◌ {ℓ κ} : {A : Type ℓ} {B : Type κ} → Option A → (A → Option B) → Option B
none >>= f = none
some a >>= f = f a
