-- ===== src/Threads/Race/Results.antt =====
-- What lab1-2/1-2.c can print.
use xjtu_oslab.Base.{
  some, true, false, Bool, OnSome, OnSome_at, ◌*◌, leb, leb→le, Bool-cases, inl, inr, ap, ℕ, zero,
  suc, ◌+◌, ◌-◌, ◌%◌, ◌≤◌, ◌<◌, ◌≡◌, refl, List, [], ◌∷◌, ◌++◌, lt→ltb, arith, ◌∙◌,
}
use mathlib.Core.Path.{subst, ap₂}
use xjtu_oslab.Threads.{word_size, increment, decrement, loop_count, Turn, first, second}
use xjtu_oslab.Threads.Race.{
  main_start, returned, loaded, Pc, head, thread_access, add, sub, Process, turn, play,
}

abbrev at : ℕ → Pc → Pc → Process
at x p q = record { shared = x; thread1 = p; thread2 = q }

-- `n` whole rounds of one thread.
alone : Turn → ℕ → List Turn
alone t zero = []
alone t (suc n) = t ∷ t ∷ t ∷ alone t n

play-++ : (ts us : List Turn) (s : Process) → play (ts ++ us) s ≡ play us (play ts s)
unfolding play
play-++ [] us s = refl
play-++ (t ∷ ts) us s = play-++ ts us (turn t s)

-- One whole round of `add`.
add_round :
    (i x : ℕ) (q : Pc) (ts : List Turn)
    → i < loop_count
    → play (first ∷ first ∷ first ∷ ts) (at x (head i) q)
      ≡ play ts (at (increment x) (head (i + 1)) q)
unfolding play turn add thread_access
add_round i x q ts h = rw (lt→ltb i loop_count h, play, turn, add, thread_access) refl

sub_round :
    (i x : ℕ) (p : Pc) (ts : List Turn)
    → i < loop_count
    → play (second ∷ second ∷ second ∷ ts) (at x p (head i))
      ≡ play ts (at (decrement x) p (head (i + 1)))
unfolding play turn sub thread_access
sub_round i x p ts h = rw (lt→ltb i loop_count h, play, turn, sub, thread_access) refl

add_alone :
    (n i x j y : ℕ) (q : Pc)
    → x < word_size
    → i + n ≤ loop_count
    → j ≡ i + n
    → y ≡ (x + n) % word_size
    → play (alone first n) (at x (head i) q) ≡ at y (head j) q
unfolding alone play increment
add_alone zero i x j y q fits h e f = ap₂ (λ a b. at a (head b) q) (omega arith) (omega arith)
add_alone (suc n) i x j y q fits h e f =
    add_round i x q (alone first n) (omega arith)
    ∙ add_alone n (i + 1) (increment x) j y q (omega arith) (omega arith) (omega arith)
        (omega arith)

sub_alone :
    (n i x j y : ℕ) (p : Pc)
    → x < word_size
    → i + n ≤ loop_count
    → j ≡ i + n
    → (y + n) % word_size ≡ x
    → y < word_size
    → play (alone second n) (at x p (head i)) ≡ at y p (head j)
unfolding alone play decrement
sub_alone zero i x j y p fits h e f g = ap₂ (λ a b. at a p (head b)) (omega arith) (omega arith)
sub_alone (suc n) i x j y p fits h e f g =
    sub_round i x p (alone second n) (omega arith)
    ∙ sub_alone n (i + 1) (decrement x) j y p (omega arith) (omega arith) (omega arith)
        (omega arith) g

abbrev last_sub : ℕ → List Turn
last_sub n = first ∷ (alone second (loop_count - n) ++ second ∷ [])

abbrev last_add : ℕ → List Turn
last_add n = second ∷ (alone first (loop_count - n) ++ first ∷ [])

-- `add` reads 0 and is overtaken by `n` rounds of `sub`, whose effect it then overwrites.
abbrev lose_sub : ℕ → List Turn
lose_sub n = first ∷ first ∷ (alone second n ++ first ∷ (alone first 9999 ++ last_sub n))

abbrev lose_add : ℕ → List Turn
lose_add n = second ∷ second ∷ (alone first n ++ second ∷ (alone second 9999 ++ last_add n))

before :
    (ts us : List Turn) (s s' s'' : Process)
    → play ts s ≡ s'
    → play us s' ≡ s''
    → play (ts ++ us) s ≡ s''
before ts us s s' s'' e f = play-++ ts us s ∙ ap (play us) e ∙ f

lose_sub-play :
    (n : ℕ) → n ≤ loop_count → play (lose_sub n) (at 0 (head 0) (head 0)) ≡ at n returned returned
unfolding play turn add sub thread_access increment
lose_sub-play n h =
    before (alone second n) (first ∷ (alone first 9999 ++ last_sub n)) (at 0 (loaded 0 0) (head 0))
      (at ((word_size - n) % word_size) (loaded 0 0) (head n)) (at n returned returned)
      (sub_alone n 0 0 n ((word_size - n) % word_size) (loaded 0 0) (omega arith) (omega arith)
        (omega arith) (omega arith) (omega arith))
      (before (alone first 9999) (last_sub n) (at 1 (head 1) (head n))
        (at 10000 (head 10000) (head n)) (at n returned returned)
        (add_alone 9999 1 1 10000 10000 (head n) (omega arith) (omega arith) (omega arith)
          (omega arith))
        (before (alone second (loop_count - n)) (second ∷ []) (at 10000 returned (head n))
          (at n returned (head 10000)) (at n returned returned)
          (sub_alone (loop_count - n) n 10000 10000 n returned (omega arith) (omega arith)
            (omega arith) (omega arith) (omega arith))
          refl))

-- The word of `n - 10000`.
abbrev below_zero : ℕ → ℕ
below_zero n = (n + 4294957296) % word_size

lose_add-play :
    (n : ℕ)
    → n ≤ loop_count
    → play (lose_add n) (at 0 (head 0) (head 0))
      ≡ at (below_zero (loop_count - n)) returned returned
unfolding play turn add sub thread_access decrement
lose_add-play n h =
    before (alone first n) (second ∷ (alone second 9999 ++ last_add n)) (at 0 (head 0) (loaded 0 0))
      (at n (head n) (loaded 0 0)) (at (below_zero (loop_count - n)) returned returned)
      (add_alone n 0 0 n n (loaded 0 0) (omega arith) (omega arith) (omega arith) (omega arith))
      (before (alone second 9999) (last_add n) (at 4294967295 (head n) (head 1))
        (at 4294957296 (head n) (head 10000)) (at (below_zero (loop_count - n)) returned returned)
        (sub_alone 9999 1 4294967295 10000 4294957296 (head n) (omega arith) (omega arith)
          (omega arith) (omega arith) (omega arith))
        (before (alone first (loop_count - n)) (first ∷ []) (at 4294957296 (head n) returned)
          (at (below_zero (loop_count - n)) (head 10000) returned)
          (at (below_zero (loop_count - n)) returned returned)
          (add_alone (loop_count - n) n 4294957296 10000 (below_zero (loop_count - n)) returned
            (omega arith) (omega arith) (omega arith) (omega arith))
          refl))

result_from_zero :
    (x : ℕ)
    → x < word_size
    → (x + loop_count) % word_size ≤ 2 * loop_count
    → (ts : List Turn) × (play ts (at 0 (head 0) (head 0)) ≡ at x returned returned)
result_from_zero x fits h = elim (Bool-cases (leb x loop_count)) [
  | inl low ↦ (lose_sub x, lose_sub-play x (leb→le x loop_count low))
  | inr high ↦
      let big : loop_count < x = ground arith in
      (
        lose_add (word_size - x),
        lose_add-play (word_size - x) (omega arith)
            ∙ ap (λ a. at a returned returned) (omega arith),
      )
]

main_start-at : (c d : Bool) → OnSome (λ s. at 0 (head 0) (head 0) ≡ s) (main_start c d)
unfolding main_start
main_start-at true true = refl
main_start-at true false = tt
main_start-at false d = tt

-- Every number between -10000 and 10000 can be what `main` prints: where both threads are created, for
-- each word in that range there is a schedule after which both threads have returned and `shared` is
-- that word.
pub every_result :
    (c d : Bool) (s : Process) (x : ℕ)
    → main_start c d ≡ some s
    → x < word_size
    → (x + loop_count) % word_size ≤ 2 * loop_count
    → (ts : List Turn) × (play ts s ≡ record { shared = x; thread1 = returned; thread2 = returned })
every_result c d s x e fits h =
    subst (λ s. (ts : List Turn) × (play ts s ≡ at x returned returned))
      (OnSome_at (λ s. at 0 (head 0) (head 0) ≡ s) (main_start c d) (main_start-at c d) e)
      (result_from_zero x fits h)
