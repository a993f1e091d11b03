-- ===== src/Spinlock/Progress.antt =====
-- The threads of lab1-3/spinlock.c cannot block one another.
use xjtu_oslab.Base.{
  zero, suc, Bool-cases, ◌==◌, ℕ, ◌+◌, ◌-◌, ◌*◌, ◌<◌, ◌≡◌, refl, List, [], ◌∷◌, arith, inl, inr,
  ◌⊎◌,
}
use xjtu_oslab.Spinlock.{
  rounds, Shared, Pc, head, spin, locked, loaded, stored, finished, thread_function, System,
  main_start, Thread, one, two, step, run,
}
use xjtu_oslab.Spinlock.Invariant.{Inv-swap, step-Inv, IsFresh, holds, Inv, SystemInv, schedule-Inv}

-- Accesses that the thread still has to make, each turn of the waiting loop left out.
abbrev pub work : Pc → ℕ
work (head i) = 5 * (rounds - i) + 1
work (spin i) = 5 * (rounds - i)
work (locked i) = 5 * (rounds - i) - 1
work (loaded i _) = 5 * (rounds - i) - 2
work (stored i) = 5 * (rounds - i) - 3
work finished = 0

abbrev pub total_work : System → ℕ
total_work s = work s.thread1 + work s.thread2

-- A thread that moves has less to do after it, unless it is done or the other holds the lock.
thread_function_progress :
    {m : Shared} (p q : Pc)
    → Inv m p q
    → (work (thread_function m p).1 < work p) ⊎ ((p ≡ finished) ⊎ (holds q ≡ 1))
unfolding thread_function
thread_function_progress (head i) q v = inl (ground arith)
thread_function_progress {m} (spin i) q v = elim (Bool-cases (m.flag == 0)) [
  | inl free ↦ inl (rw free (omega arith))
  | inr taken ↦ inr (inr (ground arith))
]
thread_function_progress (locked i) q v = inl (omega arith)
thread_function_progress (loaded i x) q v = inl (omega arith)
thread_function_progress (stored i) q v = inl (omega arith)
thread_function_progress finished q v = inr (inl refl)

-- The holder of the lock makes progress.
holder_progress :
    (m : Shared) (p : Pc) → IsFresh m p → holds p ≡ 1 → work (thread_function m p).1 < work p
unfolding thread_function
holder_progress m (head i) f h = absurd (omega arith)
holder_progress m (spin i) f h = absurd (omega arith)
holder_progress m (locked i) f h = omega arith
holder_progress m (loaded i x) f h = omega arith
holder_progress m (stored i) f h = omega arith
holder_progress m finished f h = absurd (omega arith)

step_one-work :
    (s : System)
    → total_work (step one s) ≡ work (thread_function s.mem s.thread1).1 + work s.thread2
unfolding step
step_one-work s = refl

step_two-work :
    (s : System)
    → total_work (step two s) ≡ work s.thread1 + work (thread_function s.mem s.thread2).1
unfolding step
step_two-work s = refl

step_progress :
    (s : System)
    → SystemInv s
    → ((s.thread1 ≡ finished) × (s.thread2 ≡ finished))
      ⊎ ((t : Thread) × (total_work (step t s) < total_work s))
step_progress s v = elim (thread_function_progress s.thread1 s.thread2 v) [
  | inl less ↦ inr (one, omega (arith, step_one-work s))
  | inr (inr held) ↦
      inr (two, omega (arith, step_two-work s, holder_progress s.mem s.thread2 v.fresh_right held))
  | inr (inl done1) ↦ elim (thread_function_progress s.thread2 s.thread1 (Inv-swap v)) [
    | inl less ↦ inr (two, omega (arith, step_two-work s))
    | inr (inr held) ↦
        inr (one, omega (arith, step_one-work s, holder_progress s.mem s.thread1 v.fresh_left held))
    | inr (inl done2) ↦ inl (done1, done2)
  ]
]

-- With fuel above the work that is left, there is a schedule that finishes both threads.
finishing :
    (fuel : ℕ) (s : System)
    → SystemInv s
    → total_work s < fuel
    → (us : List Thread) × ((run us s).thread1 ≡ finished) × ((run us s).thread2 ≡ finished)
unfolding run
finishing zero s v h = absurd (omega arith)
finishing (suc fuel) s v h = elim (step_progress s v) [
  | inl (e, f) ↦ ([], e, f)
  | inr (t, less) ↦
      let (us, e, f) = finishing fuel (step t s) (step-Inv t s v) (omega arith) in (t ∷ us, e, f)
]

-- No deadlock: from the state after any schedule, the threads can be scheduled so that both finish.
pub can_finish :
    (ts : List Thread) (junk : ℕ)
    → (us : List Thread) × ((run us (run ts (main_start junk))).thread1 ≡ finished)
      × ((run us (run ts (main_start junk))).thread2 ≡ finished)
can_finish ts junk =
    let s = run ts (main_start junk) in
    finishing (total_work s + 1) s (schedule-Inv ts junk) (omega arith)
