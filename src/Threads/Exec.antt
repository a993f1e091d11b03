-- ===== src/Threads/Exec.antt =====
-- lab1-2/1-2_sys.c: one thread that runs a program by `system` and then posts, and one that waits and
-- then replaces the process by `execl`, one call at a time, in any interleaving.
pub mod Order
use xjtu_oslab.Base.{ℕ, List, [], ◌∷◌, Option, none, some, Bool, if◌then◌else◌, ◌&&◌}
use xjtu_oslab.Threads.{Turn, first, second}
use xjtu_oslab.Threads.Semaphore.{Semaphore}

-- Where `system_func` stands.
pub data SystemPc : Type 0 where
  calling posting system_returned : SystemPc

-- Where `exec_func` stands. Behind `replaced` there is no thread of the process any more.
pub data ExecPc : Type 0 where
  waiting executing replaced exec_returned : ExecPc

module _ (S : Semaphore) where
  -- `exec_ok` says whether `execl` succeeds.
  pub record Process : Type 0 where
    pub signal : S.Sem
    pub exec_ok : Bool
    pub system_thread : SystemPc
    pub exec_thread : ExecPc

  unfoldable pub start_with : Bool → Option S.Sem → Bool → Option Process
  start_with ok none created = none
  start_with ok (some s) created =
      if created
      then some
          (record { signal = s; exec_ok = ok; system_thread = calling; exec_thread = waiting })
      else none

  -- `sem_init` and both calls of `pthread_create`, which say whether they succeed. `none` where `main`
  -- returns 1.
  unfoldable pub main_start : Bool → Bool → Bool → Option Process
  unfolding start_with
  main_start ok created1 created2 = start_with ok (S.sem_init 1) (created1 && created2)

  unfoldable pub system_func : Process → SystemPc → Process
  system_func s calling = record s { system_thread = posting }
  system_func s posting = record s { signal = S.sem_post s.signal; system_thread = system_returned }
  system_func s system_returned = s

  unfoldable pub wait_signal : Process → Option S.Sem → Process
  wait_signal s none = s
  wait_signal s (some t) = record s { signal = t; exec_thread = executing }

  unfoldable pub exec_func : Process → ExecPc → Process
  unfolding wait_signal
  exec_func s waiting = wait_signal s (S.sem_wait s.signal)
  exec_func s executing =
      if s.exec_ok
      then record s { exec_thread = replaced }
      else record s { exec_thread = exec_returned }
  exec_func s replaced = s
  exec_func s exec_returned = s

  unfoldable pub live_turn : Turn → Process → ExecPc → Process
  unfolding system_func exec_func
  live_turn t s replaced = s
  live_turn first s q = system_func s s.system_thread
  live_turn second s q = exec_func s q

  unfoldable pub turn : Turn → Process → Process
  unfolding live_turn
  turn t s = live_turn t s s.exec_thread

  unfoldable pub play : List Turn → Process → Process
  play [] s = s
  play (t ∷ ts) s = play ts (turn t s)
