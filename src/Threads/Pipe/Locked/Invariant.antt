-- ===== src/Threads/Pipe/Locked/Invariant.antt =====
-- Each call of a child of lab2/2-2.c keeps the order of the bytes in the pipe.
use xjtu_oslab.Base.{
  ℕ, ◌<◌, ◌≡◌, ◌≢◌, refl, sym, ◌∙◌, List, [], ◌∷◌, Option, none, some, ltb, ltb→lt, Bool-cases, inl,
  inr, arith,
}
use xjtu_oslab.Threads.{Turn, first, second}
use xjtu_oslab.Threads.Pipe.{Pipes, IsPipes, Locks, IsLocks, byte_count, char_of}
use xjtu_oslab.Threads.Pipe.Locked.{
  Pc, starting, writing, unlocking, exited, Shared, lock_pipe, write_char, child, System, forked,
  turn, play,
}
use xjtu_oslab.Threads.Pipe.Locked.Order.{
  one_first, held_other, Inv, Inv-swap, Stage-enter, Stage-write, Stage-written, Stage-exit,
  Stage-alone,
}

module _ (P : Pipes) (pipe_laws : IsPipes P) (L : Locks) (lock_laws : IsLocks L) where
  abbrev pub SharedInv : Turn → Turn → Shared P L → Pc → Pc → Type 0
  SharedInv t u m p q = Inv t u (L.holder m.lock) (P.contents m.pipe) p q

  -- The lock cannot be taken while the other has it.
  lock-other : (l l' : L.Lock) (t u : Turn) → t ≢ u → L.holder l ≡ some u → ¬ (L.lock l t ≡ some l')
  lock-other l l' t u n h e = elim (lock_laws.lock-free l l' t e) [
    | inl free ↦ absurd (grind arith)
    | inr own ↦ absurd (grind arith)
  ]

  -- Where the lock could be taken, the other is not inside.
  held_other-none :
      (l l' : L.Lock) (t u : Turn) (q : Pc)
      → t ≢ u
      → L.holder l ≡ held_other u q
      → L.lock l t ≡ some l'
      → held_other u q ≡ none
  held_other-none l l' t u starting n h e = refl
  held_other-none l l' t u exited n h e = refl
  held_other-none l l' t u (writing i) n h e = absurd (lock-other l l' t u n h e)
  held_other-none l l' t u unlocking n h e = absurd (lock-other l l' t u n h e)

  lock_pipe-Inv :
      (t u : Turn) (m : Shared P L) (q : Pc) (o : Option L.Lock)
      → t ≢ u
      → L.lock m.lock t ≡ o
      → SharedInv t u m starting q
      → SharedInv t u (lock_pipe P L m o).0 (lock_pipe P L m o).1 q
  unfolding lock_pipe
  lock_pipe-Inv t u m q none n e v = v
  lock_pipe-Inv t u m q (some l) n e v = record {
    stage =
        Stage-enter (char_of t) (char_of u) u q (P.contents m.pipe)
          (held_other-none m.lock l t u q n v.lock_held e) v.stage;
    lock_held = lock_laws.holder-lock m.lock l t e;
    few_left = omega arith;
    few_right = v.few_right;
  }

  write_char-Inv :
      (t u : Turn) (m : Shared P L) (i : ℕ) (q : Pc) (o : Option P.Pipe)
      → i < byte_count
      → P.write m.pipe (char_of t ∷ []) ≡ o
      → SharedInv t u m (writing i) q
      → SharedInv t u (write_char P L m i o).0 (write_char P L m i o).1 q
  unfolding write_char
  write_char-Inv t u m i q none h e v = v
  write_char-Inv t u m i q (some p) h e v = record {
    stage =
        rw (pipe_laws.contents-write m.pipe p (char_of t ∷ []) e)
          (Stage-write (char_of t) (char_of u) i q (P.contents m.pipe) v.stage);
    lock_held = v.lock_held;
    few_left = omega arith;
    few_right = v.few_right;
  }

  child-Inv :
      (t u : Turn) (m : Shared P L) (p q : Pc)
      → t ≢ u
      → SharedInv t u m p q
      → SharedInv t u (child P L t m p).0 (child P L t m p).1 q
  unfolding child
  child-Inv t u m starting q n v = lock_pipe-Inv t u m q (L.lock m.lock t) n refl v
  child-Inv t u m (writing i) q n v = elim (Bool-cases (ltb i byte_count)) [
    | inl more ↦ rw more (
        write_char-Inv t u m i q (P.write m.pipe (char_of t ∷ [])) (ltb→lt i byte_count more) refl
          v)
    | inr done ↦ rw done (record {
      stage = Stage-written (char_of t) (char_of u) i q (P.contents m.pipe) (ground arith) v.stage;
      lock_held = v.lock_held;
      few_left = omega arith;
      few_right = v.few_right;
    })
  ]
  child-Inv t u m unlocking q n v = record {
    stage = Stage-exit (char_of t) (char_of u) q (P.contents m.pipe) v.stage;
    lock_held =
        lock_laws.holder-unlock m.lock t v.lock_held
        ∙ sym (Stage-alone (char_of t) (char_of u) u q (P.contents m.pipe) v.stage);
    few_left = omega arith;
    few_right = v.few_right;
  }
  child-Inv t u m exited q n v = v

  first≢second : first ≢ second
  first≢second e = ground arith

  abbrev pub SystemInv : System P L → Type 0
  SystemInv s = SharedInv first second s.shared s.child1 s.child2

  pub turn-Inv : (t : Turn) (s : System P L) → SystemInv s → SystemInv (turn P L t s)
  unfolding turn
  turn-Inv first s v = child-Inv first second s.shared s.child1 s.child2 first≢second v
  turn-Inv second s v =
      Inv-swap second first (L.holder (child P L second s.shared s.child2).0.lock)
        (P.contents (child P L second s.shared s.child2).0.pipe)
        (child P L second s.shared s.child2).1 s.child1
        (child-Inv second first s.shared s.child2 s.child1 (λ e. first≢second (sym e))
          (Inv-swap first second (L.holder s.shared.lock) (P.contents s.shared.pipe) s.child1
            s.child2 v))

  play-Inv : (ts : List Turn) (s : System P L) → SystemInv s → SystemInv (play P L ts s)
  unfolding play
  play-Inv [] s v = v
  play-Inv (t ∷ ts) s v = play-Inv ts (turn P L t s) (turn-Inv t s v)

  forked-Inv : SystemInv (forked P L)
  unfolding forked
  forked-Inv = record {
    stage = one_first pipe_laws.contents-pipe;
    lock_held = lock_laws.holder-unlocked;
    few_left = omega arith;
    few_right = omega arith;
  }

  pub schedule-Inv : (ts : List Turn) → SystemInv (play P L ts (forked P L))
  schedule-Inv ts = play-Inv ts (forked P L) forked-Inv
