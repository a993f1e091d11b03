-- ===== src/Threads/Pipe/Locked/Result.antt =====
-- What the parent of lab2/2-2.c prints.
use xjtu_oslab.Base.{
  ℕ, ◌+◌, ◌≤◌, ◌≡◌, ap, ◌∙◌, List, ◌++◌, inl, inr, ◌⊎◌, take, take-all, length-append,
  length-replicate, replicate, arith,
}
use xjtu_oslab.Threads.{Turn, first, second}
use xjtu_oslab.Threads.Pipe.{Pipes, IsPipes, Locks, IsLocks, byte_count, char_of}
use xjtu_oslab.Threads.Pipe.Locked.{Pc, exited, forked, play, parent_prints}
use xjtu_oslab.Threads.Pipe.Locked.Order.{Stage, one_first, two_first, then_one, then_two, written}
use xjtu_oslab.Threads.Pipe.Locked.Invariant.{schedule-Inv}

-- All bytes of `c` before all of `d`.
abbrev pub in_order : ℕ → ℕ → List ℕ
in_order c d = replicate byte_count c ++ replicate byte_count d

Stage-exited :
    (c d : ℕ) (p q : Pc) (bytes : List ℕ)
    → Stage c d p q bytes
    → p ≡ exited
    → q ≡ exited
    → (bytes ≡ in_order c d) ⊎ (bytes ≡ in_order d c)
Stage-exited c d p q bytes (one_first e) f g = absurd (ground arith)
Stage-exited c d p q bytes (two_first e) f g = absurd (ground arith)
Stage-exited c d p q bytes (then_two e) f g =
    inl (e ∙ ap (λ r. replicate byte_count c ++ replicate (written r) d) g)
Stage-exited c d p q bytes (then_one e) f g =
    inr (e ∙ ap (λ r. replicate byte_count d ++ replicate (written r) c) f)

-- All of it fits the buffer.
whole : byte_count + byte_count ≤ 4000
unfolding byte_count
whole = omega arith

take-in_order : (c d : ℕ) → take 4000 (in_order c d) ≡ in_order c d
take-in_order c d = take-all 4000 (in_order c d) (
    omega (
      arith,
      whole,
      length-append (replicate byte_count c) (replicate byte_count d),
      length-replicate byte_count c,
      length-replicate byte_count d,
    ))

module _ (P : Pipes) (pipe_laws : IsPipes P) (L : Locks) (lock_laws : IsLocks L) where
  -- With a pipe and a lock that keep their laws, under every schedule, when both children have exited,
  -- the parent prints 2000 times 1 and then 2000 times 2, or first all of the 2 and then all of the 1.
  pub prints_in_order :
      (ts : List Turn)
      → (play P L ts (forked P L)).child1 ≡ exited
      → (play P L ts (forked P L)).child2 ≡ exited
      → (parent_prints P L (play P L ts (forked P L)) ≡ in_order (char_of first) (char_of second))
        ⊎ (parent_prints P L (play P L ts (forked P L)) ≡ in_order (char_of second) (char_of first))
  unfolding parent_prints
  prints_in_order ts e f =
      let s = play P L ts (forked P L) in
      let read = pipe_laws.read_lem s.shared.pipe 4000 in
      elim (Stage-exited (char_of first) (char_of second) s.child1 s.child2
        (P.contents s.shared.pipe) (schedule-Inv P pipe_laws L lock_laws ts).stage e f) [
          | inl b ↦ inl (read ∙ ap (take 4000) b ∙ take-in_order (char_of first) (char_of second))
          | inr b ↦ inr (read ∙ ap (take 4000) b ∙ take-in_order (char_of second) (char_of first))
        ]
