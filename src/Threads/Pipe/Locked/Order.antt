-- ===== src/Threads/Pipe/Locked/Order.antt =====
-- What the pipe of lab2/2-2.c holds under every schedule.
use xjtu_oslab.Base.{
  replicate-snoc, ℕ, ◌+◌, ◌≤◌, ◌≡◌, refl, sym, ap, ◌∙◌, List, [], ◌∷◌, ◌++◌, Option, none, some,
  replicate, arith,
}
use mathlib.Core.List.{append_assoc, append-nil}
use xjtu_oslab.Threads.{Turn}
use xjtu_oslab.Threads.Pipe.{byte_count, char_of}
use xjtu_oslab.Threads.Pipe.Locked.{Pc, starting, writing, unlocking, exited}

-- The bytes that a child has written.
abbrev pub written : Pc → ℕ
written starting = 0
written (writing i) = i
written unlocking = byte_count
written exited = byte_count

abbrev pub InRange : Pc → Type 0
InRange (writing i) = i ≤ byte_count
InRange _ = Unit

-- The order in which the children with the bytes `c` and `d` have come.
pub data Stage (c d : ℕ) : Pc → Pc → List ℕ → Type 0 where
  one_first :
      {p : Pc} {bytes : List ℕ} → bytes ≡ replicate (written p) c → Stage c d p starting bytes
  two_first :
      {q : Pc} {bytes : List ℕ} → bytes ≡ replicate (written q) d → Stage c d starting q bytes
  then_two :
      {q : Pc} {bytes : List ℕ}
      → bytes ≡ replicate byte_count c ++ replicate (written q) d
      → Stage c d exited q bytes
  then_one :
      {p : Pc} {bytes : List ℕ}
      → bytes ≡ replicate byte_count d ++ replicate (written p) c
      → Stage c d p exited bytes

Stage-swap : {c d : ℕ} {p q : Pc} {bytes : List ℕ} → Stage c d p q bytes → Stage d c q p bytes
Stage-swap (one_first e) = two_first e
Stage-swap (two_first e) = one_first e
Stage-swap (then_two e) = then_one e
Stage-swap (then_one e) = then_two e

-- The child that is between its calls of `lockf`: `t` stands in `p` and `u` in `q`.
abbrev pub held_other : Turn → Pc → Option Turn
held_other u (writing _) = some u
held_other u unlocking = some u
held_other u _ = none

abbrev pub held : Turn → Turn → Pc → Pc → Option Turn
held t u (writing _) q = some t
held t u unlocking q = some t
held t u starting q = held_other u q
held t u exited q = held_other u q

pub Stage-enter :
    (c d : ℕ) (u : Turn) (q : Pc) (bytes : List ℕ)
    → held_other u q ≡ none
    → Stage c d starting q bytes
    → Stage c d (writing 0) q bytes
Stage-enter c d u q bytes free (one_first e) = one_first e
Stage-enter c d u starting bytes free (two_first e) = one_first e
Stage-enter c d u (writing i) bytes free (two_first e) = absurd (ground arith)
Stage-enter c d u unlocking bytes free (two_first e) = absurd (ground arith)
Stage-enter c d u exited bytes free (two_first e) =
    then_one (e ∙ sym (append-nil (replicate byte_count d)))
Stage-enter c d u q bytes free (then_one e) = then_one e

pub Stage-write :
    (c d i : ℕ) (q : Pc) (bytes : List ℕ)
    → Stage c d (writing i) q bytes
    → Stage c d (writing (i + 1)) q (bytes ++ c ∷ [])
Stage-write c d i q bytes (one_first e) = one_first (rw e (replicate-snoc i c))
Stage-write c d i q bytes (then_one e) = then_one (
    rw e (
      append_assoc (replicate byte_count d) (replicate i c) (c ∷ [])
      ∙ ap (λ l. replicate byte_count d ++ l) (replicate-snoc i c)))

pub Stage-written :
    (c d i : ℕ) (q : Pc) (bytes : List ℕ)
    → i ≡ byte_count
    → Stage c d (writing i) q bytes
    → Stage c d unlocking q bytes
Stage-written c d i q bytes f (one_first e) = one_first (e ∙ ap (λ n. replicate n c) f)
Stage-written c d i q bytes f (then_one e) =
    then_one (e ∙ ap (λ n. replicate byte_count d ++ replicate n c) f)

pub Stage-exit :
    (c d : ℕ) (q : Pc) (bytes : List ℕ) → Stage c d unlocking q bytes → Stage c d exited q bytes
Stage-exit c d q bytes (one_first e) = one_first e
Stage-exit c d q bytes (then_one e) = then_one e

pub Stage-alone :
    (c d : ℕ) (u : Turn) (q : Pc) (bytes : List ℕ)
    → Stage c d unlocking q bytes
    → held_other u q ≡ none
Stage-alone c d u q bytes (one_first e) = refl
Stage-alone c d u q bytes (then_one e) = refl

-- `t` stands in `p` and `u` in `q`.
pub record Inv (t u : Turn) (h : Option Turn) (bytes : List ℕ) (p q : Pc) : Type 0 where
  pub stage : Stage (char_of t) (char_of u) p q bytes
  pub lock_held : h ≡ held t u p q
  pub few_left : written p ≤ byte_count
  pub few_right : written q ≤ byte_count

held-starting : (t u : Turn) (p : Pc) → held t u p starting ≡ held_other t p
held-starting t u starting = refl
held-starting t u (writing i) = refl
held-starting t u unlocking = refl
held-starting t u exited = refl

held-exited : (t u : Turn) (p : Pc) → held t u p exited ≡ held_other t p
held-exited t u starting = refl
held-exited t u (writing i) = refl
held-exited t u unlocking = refl
held-exited t u exited = refl

held-swap :
    (c d : ℕ) (t u : Turn) (p q : Pc) (bytes : List ℕ)
    → Stage c d p q bytes
    → held t u p q ≡ held u t q p
held-swap c d t u p q bytes (one_first e) = held-starting t u p
held-swap c d t u p q bytes (two_first e) = sym (held-starting u t q)
held-swap c d t u p q bytes (then_two e) = sym (held-exited u t q)
held-swap c d t u p q bytes (then_one e) = held-exited t u p

pub Inv-swap :
    (t u : Turn) (h : Option Turn) (bytes : List ℕ) (p q : Pc)
    → Inv t u h bytes p q
    → Inv u t h bytes q p
Inv-swap t u h bytes p q v = record {
  stage = Stage-swap v.stage;
  lock_held = v.lock_held ∙ held-swap (char_of t) (char_of u) t u p q bytes v.stage;
  few_left = v.few_right;
  few_right = v.few_left;
}
