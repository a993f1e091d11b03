-- ===== src/Spinlock/Invariant.antt =====
-- What holds of the threads of lab1-3/spinlock.c under every schedule.
use xjtu_oslab.Base.{ℕ, ◌+◌, ◌≤◌, ◌<◌, ◌≡◌, List, [], ◌∷◌, arith}
use xjtu_oslab.Spinlock.{
  rounds, Shared, Pc, head, spin, locked, loaded, stored, finished, thread_function, System,
  main_start, Thread, one, two, step, run,
}

-- Between the return of `spinlock_lock` and the write of `spinlock_unlock`: 1 or 0.
abbrev pub holds : Pc → ℕ
holds (locked _) = 1
holds (loaded _ _) = 1
holds (stored _) = 1
holds _ = 0

-- Increments that the thread has written.
abbrev pub written : Pc → ℕ
written (head i) = i
written (spin i) = i
written (locked i) = i
written (loaded i _) = i
written (stored i) = i + 1
written finished = rounds

-- The locals of a thread: the round is in range, and a value that was read is still the counter's.
abbrev pub IsFresh : Shared → Pc → Type 0
IsFresh m (head i) = i ≤ rounds
IsFresh m (spin i) = i < rounds
IsFresh m (locked i) = i < rounds
IsFresh m (loaded i v) = (i < rounds) × (v ≡ m.shared_value)
IsFresh m (stored i) = i < rounds
IsFresh m finished = Unit

pub record Inv (m : Shared) (p q : Pc) : Type 0 where
  pub one_holder : m.flag ≡ holds p + holds q
  pub at_most_one : m.flag ≤ 1
  pub counted : m.shared_value ≡ written p + written q
  pub fresh_left : IsFresh m p
  pub fresh_right : IsFresh m q

pub Inv-swap : {m : Shared} {p q : Pc} → Inv m p q → Inv m q p
Inv-swap v = record {
  one_holder = omega arith;
  at_most_one = v.at_most_one;
  counted = omega arith;
  fresh_left = v.fresh_right;
  fresh_right = v.fresh_left;
}

-- A move of one thread keeps the invariant, whatever the other stands at.
thread_function-Inv :
    {m : Shared} (p q : Pc) → Inv m p q → Inv (thread_function m p).0 (thread_function m p).1 q
unfolding thread_function
thread_function-Inv (head i) q v = ground arith
thread_function-Inv (spin i) q v = ground arith
thread_function-Inv (locked i) q v = ground arith
thread_function-Inv (loaded i x) q v = ground arith
thread_function-Inv (stored i) q v = ground arith
thread_function-Inv finished q v = v

abbrev pub SystemInv : System → Type 0
SystemInv s = Inv s.mem s.thread1 s.thread2

pub step-Inv : (t : Thread) (s : System) → SystemInv s → SystemInv (step t s)
unfolding step
step-Inv one s v = thread_function-Inv s.thread1 s.thread2 v
step-Inv two s v = Inv-swap (thread_function-Inv s.thread2 s.thread1 (Inv-swap v))

main_start-Inv : (junk : ℕ) → SystemInv (main_start junk)
unfolding main_start
main_start-Inv junk = omega arith

run-Inv : (ts : List Thread) (s : System) → SystemInv s → SystemInv (run ts s)
unfolding run
run-Inv [] s v = v
run-Inv (t ∷ ts) s v = run-Inv ts (step t s) (step-Inv t s v)

pub schedule-Inv : (ts : List Thread) (junk : ℕ) → SystemInv (run ts (main_start junk))
schedule-Inv ts junk = run-Inv ts (main_start junk) (main_start-Inv junk)
