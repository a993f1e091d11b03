-- ===== src/Threads/Counter/Safety.antt =====
-- What the semaphore of lab1-2/1-2_signal.c guarantees under every schedule.
use xjtu_oslab.Base.{ap, ◌+◌, ◌≤◌, ◌≡◌, List, Bool, some, arith}
use xjtu_oslab.Threads.{Turn}
use xjtu_oslab.Threads.Semaphore.{Semaphore, IsSemaphore}
use xjtu_oslab.Threads.Counter.{returned, main_start, Process, play}
use xjtu_oslab.Threads.Counter.Invariant.{holds, written, started-Inv}

module _ (S : Semaphore) (laws : IsSemaphore S) where
  -- With a semaphore that keeps its laws, where both threads are created, the two threads are never,
  -- under any schedule, both between the return of `sem_wait` and the call of `sem_post`.
  pub one_inside :
      (c d : Bool) (s : Process S) (ts : List Turn)
      → main_start S c d ≡ some s
      → holds (play S ts s).thread1 + holds (play S ts s).thread2 ≤ 1
  one_inside c d s ts h = omega (arith, started-Inv S laws c d s ts h)

  -- With a semaphore that keeps its laws, where both threads are created, under every schedule, when
  -- both threads have returned, `shared`, which `main` prints, is 0.
  pub result_zero :
      (c d : Bool) (s : Process S) (ts : List Turn)
      → main_start S c d ≡ some s
      → (play S ts s).thread1 ≡ returned
      → (play S ts s).thread2 ≡ returned
      → (play S ts s).globals.shared ≡ 0
  result_zero c d s ts h e f =
      omega (arith, started-Inv S laws c d s ts h, ap written e, ap written f)
