-- ===== src/Spinlock/Safety.antt =====
-- What the spinlock of lab1-3/spinlock.c guarantees under every schedule.
use xjtu_oslab.Base.{ap, ℕ, ◌+◌, ◌≤◌, ◌≡◌, List, arith}
use xjtu_oslab.Spinlock.{finished, main_start, Thread, run}
use xjtu_oslab.Spinlock.Invariant.{holds, written, schedule-Inv}

-- Whatever the schedule and whatever the lock held before `spinlock_init`, the two threads are never
-- both between the return of `spinlock_lock` and the release of `spinlock_unlock`.
pub mutual_exclusion :
    (ts : List Thread) (junk : ℕ)
    → holds (run ts (main_start junk)).thread1 + holds (run ts (main_start junk)).thread2 ≤ 1
mutual_exclusion ts junk = omega (arith, schedule-Inv ts junk)

-- No increment is lost: under every schedule, when both threads have finished, the counter that
-- `main` prints is twice the number of rounds.
pub no_lost_update :
    (ts : List Thread) (junk : ℕ)
    → (run ts (main_start junk)).thread1 ≡ finished
    → (run ts (main_start junk)).thread2 ≡ finished
    → (run ts (main_start junk)).mem.shared_value ≡ 10000
no_lost_update ts junk e f = omega (arith, schedule-Inv ts junk, ap written e, ap written f)
