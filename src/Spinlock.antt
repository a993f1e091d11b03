-- ===== src/Spinlock.antt =====
-- lab1-3/spinlock.c: two threads that increment a shared counter under a spinlock, one shared access
-- at a time, in any interleaving.
pub mod Invariant
pub mod Safety
pub mod Progress
pub mod Examples
use xjtu_oslab.Base.{ℕ, suc, ◌+◌, List, [], ◌∷◌, ltb, ◌==◌, if◌then◌else◌}

abbrev pub rounds : ℕ
rounds = 5000

-- `spinlock_t` and the counter
pub record Shared : Type 0 where
  pub flag : ℕ
  pub shared_value : ℕ

-- Where a thread stands in `thread_function`, with its local variables: `i`, and what it has read.
pub data Pc : Type 0 where
  head : ℕ → Pc  -- the test of the `for`
  spin : ℕ → Pc  -- the `while` of `spinlock_lock`
  locked : ℕ → Pc  -- before `shared_value++` reads
  loaded : ℕ → ℕ → Pc  -- before it writes
  stored : ℕ → Pc  -- before `spinlock_unlock`
  finished : Pc

-- `__sync_lock_test_and_set(&lock->flag, 1)` returns the old flag.
unfoldable pub spinlock_lock : Shared → ℕ → Shared × Pc
spinlock_lock m i = (record m { flag = 1 }, if m.flag == 0 then locked i else spin i)

-- `__sync_lock_release` writes 0.
unfoldable pub spinlock_unlock : Shared → Shared
spinlock_unlock m = record m { flag = 0 }

-- One shared access of a thread.
unfoldable pub thread_function : Shared → Pc → Shared × Pc
unfolding spinlock_lock spinlock_unlock
thread_function m (head i) = (m, if ltb i rounds then spin i else finished)
thread_function m (spin i) = spinlock_lock m i
thread_function m (locked i) = (m, loaded i m.shared_value)
thread_function m (loaded i v) = (record m { shared_value = v + 1 }, stored i)
thread_function m (stored i) = (spinlock_unlock m, head (i + 1))
thread_function m finished = (m, finished)

pub record System : Type 0 where
  pub mem : Shared
  pub thread1 : Pc
  pub thread2 : Pc

-- `spinlock_init`, and both threads created.
unfoldable pub spinlock_init : Shared → Shared
spinlock_init m = record m { flag = 0 }

-- The flag of the `lock` on the stack is arbitrary before.
unfoldable pub main_start : ℕ → System
unfolding spinlock_init
main_start junk = record {
  mem = spinlock_init (record { flag = junk; shared_value = 0 });
  thread1 = head 0;
  thread2 = head 0;
}

-- Which thread the scheduler lets move.
pub data Thread : Type 0 where
  one two : Thread

unfoldable pub step : Thread → System → System
step one s = let (m, p) = thread_function s.mem s.thread1 in record s { mem = m; thread1 = p }
step two s = let (m, p) = thread_function s.mem s.thread2 in record s { mem = m; thread2 = p }

-- The system after a schedule. A thread that has not been created yet is one that is not scheduled.
unfoldable pub run : List Thread → System → System
run [] s = s
run (t ∷ ts) s = run ts (step t s)
