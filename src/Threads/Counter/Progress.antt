-- ===== src/Threads/Counter/Progress.antt =====
-- The threads of lab1-2/1-2_signal.c cannot block one another.
use xjtu_oslab.Base.{
  zero, suc, List, [], ◌∷◌, Bool, ℕ, ◌+◌, ◌-◌, ◌*◌, ◌<◌, ◌≡◌, refl, Option, none, some, arith, inl,
  inr, ◌⊎◌,
}
use xjtu_oslab.Threads.{Turn, loop_count, increment, decrement, first, second}
use xjtu_oslab.Threads.Semaphore.{Semaphore, IsSemaphore}
use xjtu_oslab.Threads.Counter.{
  main_start, play, Pc, head, waiting, entered, loaded, stored, returned, Globals, wait_signal,
  thread_access, add, sub, Process, turn,
}
use xjtu_oslab.Threads.Counter.Invariant.{ProcessInv, turn-Inv, started-Inv, IsFresh, holds}

-- Accesses that the thread still has to make, each try of `sem_wait` that blocks left out.
abbrev pub work : Pc → ℕ
work (head i) = 5 * (loop_count - i) + 1
work (waiting i) = 5 * (loop_count - i)
work (entered i) = 5 * (loop_count - i) - 1
work (loaded i _) = 5 * (loop_count - i) - 2
work (stored i) = 5 * (loop_count - i) - 3
work returned = 0

one_of : (a b : ℕ) → a + b ≡ 1 → (a ≡ 1) ⊎ (b ≡ 1)
one_of zero b e = inr (omega arith)
one_of (suc a) b e = inl (omega arith)

module _ (S : Semaphore) (laws : IsSemaphore S) where
  wait_progress :
      (m : Globals S) (i : ℕ) (o : Option S.Sem)
      → S.sem_wait m.signal ≡ o
      → i < loop_count
      → (work (wait_signal S m i o).1 < work (waiting i)) ⊎ (S.value m.signal ≡ 0)
  unfolding wait_signal
  wait_progress m i none e h = inr (laws.sem_wait-blocked m.signal e)
  wait_progress m i (some s) e h = inl (omega arith)

  -- A thread that moves has less to do after it, unless it has returned or the semaphore is 0.
  thread_access_progress :
      (change : ℕ → ℕ) (m : Globals S) (p : Pc)
      → IsFresh m.shared p
      → (work (thread_access S change m p).1 < work p) ⊎ ((p ≡ returned) ⊎ (S.value m.signal ≡ 0))
  unfolding thread_access
  thread_access_progress change m (head i) f = inl (ground arith)
  thread_access_progress change m (waiting i) f =
      elim (wait_progress m i (S.sem_wait m.signal) refl f) [
        | inl less ↦ inl less
        | inr closed ↦ inr (inr closed)
      ]
  thread_access_progress change m (entered i) f = inl (omega arith)
  thread_access_progress change m (loaded i x) f = inl (omega arith)
  thread_access_progress change m (stored i) f = inl (omega arith)
  thread_access_progress change m returned f = inr (inl refl)

  -- The thread inside makes progress.
  holder_access :
      (change : ℕ → ℕ) (m : Globals S) (p : Pc)
      → IsFresh m.shared p
      → holds p ≡ 1
      → work (thread_access S change m p).1 < work p
  unfolding thread_access
  holder_access change m (head i) f h = absurd (omega arith)
  holder_access change m (waiting i) f h = absurd (omega arith)
  holder_access change m (entered i) f h = omega arith
  holder_access change m (loaded i x) f h = omega arith
  holder_access change m (stored i) f h = omega arith
  holder_access change m returned f h = absurd (omega arith)

  abbrev total_work : Process S → ℕ
  total_work s = work s.thread1 + work s.thread2

  turn_first-work :
      (s : Process S)
      → total_work (turn S first s)
        ≡ work (thread_access S increment s.globals s.thread1).1 + work s.thread2
  unfolding turn add
  turn_first-work s = refl

  turn_second-work :
      (s : Process S)
      → total_work (turn S second s)
        ≡ work s.thread1 + work (thread_access S decrement s.globals s.thread2).1
  unfolding turn sub
  turn_second-work s = refl

  -- While the semaphore is 0 the thread inside can move.
  closed_progress :
      (s : Process S)
      → ProcessInv S laws s
      → S.value s.globals.signal ≡ 0
      → (t : Turn) × (total_work (turn S t s) < total_work s)
  closed_progress s v closed =
      elim (one_of (holds s.thread1) (holds s.thread2) (omega (arith, v))) [
        | inl h ↦ (
          first,
          omega
              (arith, turn_first-work s, holder_access increment s.globals s.thread1 v.fresh_add h),
        )
        | inr h ↦ (
          second,
          omega (
            arith,
            turn_second-work s,
            holder_access decrement s.globals s.thread2 v.fresh_sub h,
          ),
        )
      ]

  turn_progress :
      (s : Process S)
      → ProcessInv S laws s
      → ((s.thread1 ≡ returned) × (s.thread2 ≡ returned))
        ⊎ ((t : Turn) × (total_work (turn S t s) < total_work s))
  turn_progress s v = elim (thread_access_progress increment s.globals s.thread1 v.fresh_add) [
    | inl less ↦ inr (first, omega (arith, turn_first-work s))
    | inr (inr closed) ↦ inr (closed_progress s v closed)
    | inr (inl done1) ↦ elim (thread_access_progress decrement s.globals s.thread2 v.fresh_sub) [
      | inl less ↦ inr (second, omega (arith, turn_second-work s))
      | inr (inr closed) ↦ inr (closed_progress s v closed)
      | inr (inl done2) ↦ inl (done1, done2)
    ]
  ]

  -- With fuel above the work that is left, there is a schedule after which both have returned.
  returning :
      (fuel : ℕ) (s : Process S)
      → ProcessInv S laws s
      → total_work s < fuel
      → (us : List Turn) × ((play S us s).thread1 ≡ returned) × ((play S us s).thread2 ≡ returned)
  unfolding play
  returning zero s v h = absurd (omega arith)
  returning (suc fuel) s v h = elim (turn_progress s v) [
    | inl (e, f) ↦ ([], e, f)
    | inr (t, less) ↦
        let (us, e, f) = returning fuel (turn S t s) (turn-Inv S laws t s v) (omega arith) in
        (t ∷ us, e, f)
  ]

  -- No deadlock: with a semaphore that keeps its laws, where both threads are created, from the state
  -- after any schedule the threads can be scheduled so that both return.
  pub can_return :
      (c d : Bool) (s : Process S) (ts : List Turn)
      → main_start S c d ≡ some s
      → (us : List Turn) × ((play S us (play S ts s)).thread1 ≡ returned)
        × ((play S us (play S ts s)).thread2 ≡ returned)
  can_return c d s ts h =
      returning (total_work (play S ts s) + 1) (play S ts s) (started-Inv S laws c d s ts h)
        (omega arith)
