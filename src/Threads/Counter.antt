-- ===== src/Threads/Counter.antt =====
-- lab1-2/1-2_signal.c: one thread that increments `shared` and one that decrements it, each access
-- between `sem_wait` and `sem_post`, one shared access at a time, in any interleaving.
pub mod Invariant
pub mod Safety
pub mod Progress
use xjtu_oslab.Base.{ℕ, ◌+◌, List, [], ◌∷◌, Option, none, some, Bool, ltb, if◌then◌else◌, ◌&&◌}
use xjtu_oslab.Threads.{increment, decrement, loop_count, Turn, first, second}
use xjtu_oslab.Threads.Semaphore.{Semaphore}

-- Where a thread stands in `add` or `sub`, with its local variables: `i`, and what it has read.
pub data Pc : Type 0 where
  head : ℕ → Pc  -- the test of the `for`
  waiting : ℕ → Pc  -- before `sem_wait` returns
  entered : ℕ → Pc  -- before `shared` is read
  loaded : ℕ → ℕ → Pc  -- before it is written
  stored : ℕ → Pc  -- before `sem_post`
  returned : Pc

module _ (S : Semaphore) where
  pub record Globals : Type 0 where
    pub signal : S.Sem
    pub shared : ℕ

  unfoldable pub wait_signal : Globals → ℕ → Option S.Sem → Globals × Pc
  wait_signal m i none = (m, waiting i)
  wait_signal m i (some s) = (record m { signal = s }, entered i)

  -- One shared access of a thread whose statement on `shared` is `change`.
  unfoldable pub thread_access : (ℕ → ℕ) → Globals → Pc → Globals × Pc
  unfolding wait_signal
  thread_access change m (head i) = (m, if ltb i loop_count then waiting i else returned)
  thread_access change m (waiting i) = wait_signal m i (S.sem_wait m.signal)
  thread_access change m (entered i) = (m, loaded i m.shared)
  thread_access change m (loaded i v) = (record m { shared = change v }, stored i)
  thread_access change m (stored i) = (record m { signal = S.sem_post m.signal }, head (i + 1))
  thread_access change m returned = (m, returned)

  unfoldable pub add : Globals → Pc → Globals × Pc
  unfolding thread_access
  add = thread_access increment

  unfoldable pub sub : Globals → Pc → Globals × Pc
  unfolding thread_access
  sub = thread_access decrement

  pub record Process : Type 0 where
    pub globals : Globals
    pub thread1 : Pc
    pub thread2 : Pc

  -- `sem_init` and both calls of `pthread_create`, which say whether they succeed. `none` where `main`
  -- returns 1.
  unfoldable pub start_with : Option S.Sem → Bool → Option Process
  start_with none created = none
  start_with (some s) created =
      if created
      then some (record {
        globals = record { signal = s; shared = 0 };
        thread1 = head 0;
        thread2 = head 0;
      })
      else none

  unfoldable pub main_start : Bool → Bool → Option Process
  unfolding start_with
  main_start created1 created2 = start_with (S.sem_init 1) (created1 && created2)

  unfoldable pub turn : Turn → Process → Process
  turn first s = let (m, p) = add s.globals s.thread1 in record s { globals = m; thread1 = p }
  turn second s = let (m, p) = sub s.globals s.thread2 in record s { globals = m; thread2 = p }

  -- The process after a schedule. A thread that has not been created yet is one that is not scheduled.
  unfoldable pub play : List Turn → Process → Process
  play [] s = s
  play (t ∷ ts) s = play ts (turn t s)
