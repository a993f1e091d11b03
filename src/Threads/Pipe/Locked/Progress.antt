-- ===== src/Threads/Pipe/Locked/Progress.antt =====
-- The children of lab2/2-2.c cannot block one another, and the pipe has room for their bytes.
use xjtu_oslab.Base.{
  zero, suc, ℕ, ◌+◌, ◌-◌, ◌≤◌, ◌<◌, ◌≡◌, ◌≢◌, refl, ap, ◌∙◌, List, [], ◌∷◌, Option, none, some, ltb,
  ltb→lt, Bool-cases, inl, inr, ◌⊎◌, length, length-append, length-replicate, replicate, arith,
}
use xjtu_oslab.Threads.{Turn, first, second}
use xjtu_oslab.Threads.Pipe.{Pipes, IsPipes, Locks, IsLocks, byte_count, char_of}
use xjtu_oslab.Threads.Pipe.Locked.{
  Pc, starting, writing, unlocking, exited, Shared, lock_pipe, write_char, child, System, forked,
  turn, play,
}
use xjtu_oslab.Threads.Pipe.Locked.Order.{
  Stage, one_first, two_first, then_one, then_two, written, held_other, Inv-swap,
}
use xjtu_oslab.Threads.Pipe.Locked.Invariant.{SharedInv, SystemInv, turn-Inv, schedule-Inv}

-- Calls that the child still has to make, each `lockf` that waits left out.
abbrev pub work : Pc → ℕ
work starting = byte_count + 3
work (writing i) = byte_count - i + 2
work unlocking = 1
work exited = 0

Stage-length :
    (c d : ℕ) (p q : Pc) (bytes : List ℕ)
    → Stage c d p q bytes
    → length bytes ≡ written p + written q
Stage-length c d p q bytes (one_first e) =
    omega (arith, ap length e, length-replicate (written p) c)
Stage-length c d p q bytes (two_first e) =
    omega (arith, ap length e, length-replicate (written q) d)
Stage-length c d p q bytes (then_two e) = omega (
  arith,
  ap length e,
  length-append (replicate byte_count c) (replicate (written q) d),
  length-replicate byte_count c,
  length-replicate (written q) d,
)
Stage-length c d p q bytes (then_one e) = omega (
  arith,
  ap length e,
  length-append (replicate byte_count d) (replicate (written p) c),
  length-replicate byte_count d,
  length-replicate (written p) c,
)

small : byte_count ≤ 4000
unfolding byte_count
small = omega arith

module _ (P : Pipes) (pipe_laws : IsPipes P) (L : Locks) (lock_laws : IsLocks L) where
  write_char_progress :
      (t u : Turn) (m : Shared P L) (i : ℕ) (q : Pc) (o : Option P.Pipe)
      → P.write m.pipe (char_of t ∷ []) ≡ o
      → i < byte_count
      → SharedInv P pipe_laws L lock_laws t u m (writing i) q
      → work (write_char P L m i o).1 < work (writing i)
  unfolding write_char
  write_char_progress t u m i q none e h v = absurd (
      omega (
        arith,
        small,
        v,
        Stage-length (char_of t) (char_of u) (writing i) q (P.contents m.pipe) v.stage,
        pipe_laws.write-blocked m.pipe (char_of t ∷ []) (omega arith) e,
      ))
  write_char_progress t u m i q (some p) e h v = omega arith

  inside_progress :
      (t u : Turn) (m : Shared P L) (p q : Pc)
      → SharedInv P pipe_laws L lock_laws t u m p q
      → held_other t p ≢ none
      → work (child P L t m p).1 < work p
  unfolding child
  inside_progress t u m starting q v n = absurd (n refl)
  inside_progress t u m (writing i) q v n = elim (Bool-cases (ltb i byte_count)) [
    | inl more ↦ rw more (
        write_char_progress t u m i q (P.write m.pipe (char_of t ∷ [])) refl
          (ltb→lt i byte_count more) v)
    | inr done ↦ rw done (omega arith)
  ]
  inside_progress t u m unlocking q v n = omega arith
  inside_progress t u m exited q v n = absurd (n refl)

  lock_pipe_progress :
      (t u : Turn) (m : Shared P L) (q : Pc) (o : Option L.Lock)
      → L.lock m.lock t ≡ o
      → SharedInv P pipe_laws L lock_laws t u m starting q
      → (work (lock_pipe P L m o).1 < work starting) ⊎ (held_other u q ≢ none)
  unfolding lock_pipe
  lock_pipe_progress t u m q none e v =
      inr (λ free. (lock_laws.lock-blocked m.lock t e).0 (v.lock_held ∙ free))
  lock_pipe_progress t u m q (some l) e v = inl (omega arith)

  -- A child that moves has less to do after it, unless it has exited or the other has the lock.
  child_progress :
      (t u : Turn) (m : Shared P L) (p q : Pc)
      → SharedInv P pipe_laws L lock_laws t u m p q
      → (work (child P L t m p).1 < work p) ⊎ ((p ≡ exited) ⊎ (held_other u q ≢ none))
  unfolding child
  child_progress t u m starting q v = elim (lock_pipe_progress t u m q (L.lock m.lock t) refl v) [
    | inl less ↦ inl less
    | inr other ↦ inr (inr other)
  ]
  child_progress t u m (writing i) q v =
      inl (inside_progress t u m (writing i) q v (λ e. absurd (ground arith)))
  child_progress t u m unlocking q v = inl (omega arith)
  child_progress t u m exited q v = inr (inl refl)

  swapped :
      (s : System P L)
      → SystemInv P pipe_laws L lock_laws s
      → SharedInv P pipe_laws L lock_laws second first s.shared s.child2 s.child1
  swapped s v =
      Inv-swap first second (L.holder s.shared.lock) (P.contents s.shared.pipe) s.child1 s.child2 v

  abbrev total_work : System P L → ℕ
  total_work s = work s.child1 + work s.child2

  turn_first-work :
      (s : System P L)
      → total_work (turn P L first s) ≡ work (child P L first s.shared s.child1).1 + work s.child2
  unfolding turn
  turn_first-work s = refl

  turn_second-work :
      (s : System P L)
      → total_work (turn P L second s) ≡ work s.child1 + work (child P L second s.shared s.child2).1
  unfolding turn
  turn_second-work s = refl

  turn_progress :
      (s : System P L)
      → SystemInv P pipe_laws L lock_laws s
      → ((s.child1 ≡ exited) × (s.child2 ≡ exited))
        ⊎ ((t : Turn) × (total_work (turn P L t s) < total_work s))
  turn_progress s v = elim (child_progress first second s.shared s.child1 s.child2 v) [
    | inl less ↦ inr (first, omega (arith, turn_first-work s))
    | inr (inr other) ↦ inr (
      second,
      omega (
        arith,
        turn_second-work s,
        inside_progress second first s.shared s.child2 s.child1 (swapped s v) other,
      ),
    )
    | inr (inl done1) ↦
        elim (child_progress second first s.shared s.child2 s.child1 (swapped s v)) [
          | inl less ↦ inr (second, omega (arith, turn_second-work s))
          | inr (inr other) ↦ inr (
            first,
            omega (
              arith,
              turn_first-work s,
              inside_progress first second s.shared s.child1 s.child2 v other,
            ),
          )
          | inr (inl done2) ↦ inl (done1, done2)
        ]
  ]

  exiting :
      (fuel : ℕ) (s : System P L)
      → SystemInv P pipe_laws L lock_laws s
      → total_work s < fuel
      → (us : List Turn) × ((play P L us s).child1 ≡ exited) × ((play P L us s).child2 ≡ exited)
  unfolding play
  exiting zero s v h = absurd (omega arith)
  exiting (suc fuel) s v h = elim (turn_progress s v) [
    | inl (e, f) ↦ ([], e, f)
    | inr (t, less) ↦
        let (us, e, f) =
          exiting fuel (turn P L t s) (turn-Inv P pipe_laws L lock_laws t s v) (omega arith) in
        (t ∷ us, e, f)
  ]

  -- No child waits for ever: with a pipe and a lock that keep their laws, from the state after any
  -- schedule the children can be scheduled so that both exit.
  pub can_exit :
      (ts : List Turn)
      → (us : List Turn) × ((play P L us (play P L ts (forked P L))).child1 ≡ exited)
        × ((play P L us (play P L ts (forked P L))).child2 ≡ exited)
  can_exit ts =
      let s = play P L ts (forked P L) in
      exiting (total_work s + 1) s (schedule-Inv P pipe_laws L lock_laws ts) (omega arith)
