-- ===== src/Fs/State/Keeps.antt =====
-- Programs over the globals of lab3/3.c that keep a predicate on them.
use xjtu_oslab.Base.{if◌then◌else◌}
use xjtu_oslab.Base.{Option, none, some, true, false}
use xjtu_oslab.Fs.State.{lift, gets, pure, ◌>>=◌}
use xjtu_oslab.Fs.State.{stuck}
use xjtu_oslab.Fs.State.{and_then}
use xjtu_oslab.Base.{ℕ, ◌+◌, List, Option, none, some, Bool, true, false}
use xjtu_oslab.Fs.Bytes.{Bytes}
use xjtu_oslab.Fs.State.{
  stuck, FileSystem, Output, Run, ok, undefined, M, pure, ◌>>=◌, gets, puts, time, lift,
}

-- The predicate holds of the globals where the run is defined.
abbrev pub Ensures {ℓ} : {A : Type ℓ} → (FileSystem → Type 0) → Run A → Type 0
Ensures P (ok a fs) = P fs
Ensures P undefined = Unit {0}

pub record Post {ℓ} {A : Type ℓ} (P : FileSystem → Type 0) (r : Run A) : Type ℓ where
  pub holds : Ensures P r

pub record Keeps {ℓ} {A : Type ℓ} (P : FileSystem → Type 0) (m : M A) : Type ℓ where
  pub kept : (fs : FileSystem) → P fs → Post P (m fs)

-- The predicate does not read the image, the clock's count or what is printed.
pub record IsStable (P : FileSystem → Type 0) : Type 0 where
  pub on_disk : (fs : FileSystem) (d : Bytes) → P fs → P (record fs { disk = d })
  pub on_asked : (fs : FileSystem) (n : ℕ) → P fs → P (record fs { asked = n })
  pub on_printed : (fs : FileSystem) (l : List Output) → P fs → P (record fs { printed = l })

module _ {P : FileSystem → Type 0} where
  Post-bind {ℓ κ} :
      {A : Type ℓ} {B : Type κ} (r : Run A) (f : A → M B)
      → Post P r
      → ((a : A) → Keeps P (f a))
      → Post P (and_then r f)
  Post-bind (ok a fs) f h k = (k a).kept fs h.holds
  Post-bind undefined f h k = record { holds = tt }

  pub Post-option {ℓ κ} :
      {A : Type ℓ} {B : Type κ} (o : Option A) (r : Run B) (f : A → Run B)
      → Post P r
      → ((a : A) → Post P (f a))
      → Post P (elim o [ none ↦ r | some a ↦ f a ])
  Post-option none r f h k = h
  Post-option (some a) r f h k = k a

  pub Post-if {ℓ} :
      {B : Type ℓ} (b : Bool) (r s : Run B) → Post P r → Post P s → Post P (if b then r else s)
  Post-if true r s h k = h
  Post-if false r s h k = k

  pub Keeps-bind {ℓ κ} :
      {A : Type ℓ} {B : Type κ} (m : M A) (f : A → M B)
      → Keeps P m
      → ((a : A) → Keeps P (f a))
      → Keeps P (m >>= f)
  Keeps-bind m f h k = record { kept = λ fs p. Post-bind (m fs) f (h.kept fs p) k }

  pub Keeps-pure {ℓ} : {A : Type ℓ} (a : A) → Keeps P (pure a)
  Keeps-pure a = record { kept = λ fs p. record { holds = p } }

  pub Keeps-gets {ℓ} : {A : Type ℓ} (f : Bytes → A) → Keeps P (gets f)
  Keeps-gets f = record { kept = λ fs p. record { holds = p } }

  pub Keeps-reads {ℓ} : {A : Type ℓ} (f : FileSystem → A) → Keeps P (λ fs. ok (f fs) fs)
  Keeps-reads f = record { kept = λ fs p. record { holds = p } }

  pub Keeps-lift {ℓ} : {A : Type ℓ} (a : Option A) → Keeps P (lift a)
  Keeps-lift none = record { kept = λ fs p. record { holds = tt } }
  Keeps-lift (some a) = record { kept = λ fs p. record { holds = p } }

  pub Keeps-cond {ℓ} :
      {A : Type ℓ} (b : Bool) {m k : M A}
      → Keeps P m
      → Keeps P k
      → Keeps P (elim b [ true ↦ m | false ↦ k ])
  Keeps-cond true h k = h
  Keeps-cond false h k = k

  pub Keeps-option {ℓ κ} :
      {A : Type ℓ} {B : Type κ} (o : Option A) {m : M B} {f : A → M B}
      → Keeps P m
      → ((a : A) → Keeps P (f a))
      → Keeps P (elim o [ none ↦ m | some a ↦ f a ])
  Keeps-option none h k = h
  Keeps-option (some a) h k = k a

  pub Keeps-stuck {ℓ} : {A : Type ℓ} → Keeps P (stuck {A = A})
  Keeps-stuck = record { kept = λ fs p. record { holds = tt } }

  module _ (stable : IsStable P) where
    pub Keeps-puts : (f : Bytes → Bytes) → Keeps P (puts f)
    Keeps-puts f = record { kept = λ fs p. record { holds = stable.on_disk fs (f fs.disk) p } }

    pub Keeps-time : Keeps P time
    unfolding time
    Keeps-time = record { kept = λ fs p. record { holds = stable.on_asked fs (fs.asked + 1) p } }

    pub Keeps-print :
        (f : FileSystem → List Output)
        → Keeps {A = Unit {0}} P (λ fs. ok tt (record fs { printed = f fs }))
    Keeps-print f = record { kept = λ fs p. record { holds = stable.on_printed fs (f fs) p } }
