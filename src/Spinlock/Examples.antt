-- ===== src/Spinlock/Examples.antt =====
-- Schedules of the threads of lab1-3/spinlock.c.
use xjtu_oslab.Base.{◌+◌, ◌≤◌, ◌≡◌, refl, List, [], ◌∷◌}
use xjtu_oslab.Spinlock.{
  spinlock_lock, thread_function, spinlock_init, main_start, spin, loaded, finished, Thread, one,
  two, step, run,
}
use xjtu_oslab.Spinlock.Invariant.{holds}
use xjtu_oslab.Spinlock.Safety.{mutual_exclusion, no_lost_update}
use xjtu_oslab.Spinlock.Progress.{can_finish}

-- Both threads wait for the lock, the first takes it, and the second keeps waiting.
abbrev schedule : List Thread
schedule = one ∷ two ∷ one ∷ two ∷ one ∷ two ∷ []

contended :
    run schedule (main_start 1)
    ≡ record { mem = record { flag = 1; shared_value = 0 }; thread1 = loaded 0 0; thread2 = spin 0 }
unfolding run step thread_function spinlock_lock main_start spinlock_init
contended = refl

mutual_exclusion_example :
    holds (run schedule (main_start 1)).thread1 + holds (run schedule (main_start 1)).thread2 ≤ 1
mutual_exclusion_example = mutual_exclusion schedule 1

can_finish_example :
    (us : List Thread) × ((run us (run schedule (main_start 1))).thread1 ≡ finished)
    × ((run us (run schedule (main_start 1))).thread2 ≡ finished)
can_finish_example = can_finish schedule 1

-- A schedule that finishes both threads.
abbrev whole : List Thread
whole = (can_finish [] 1).0

whole_one : (run whole (main_start 1)).thread1 ≡ finished
unfolding run
whole_one = (can_finish [] 1).1

whole_two : (run whole (main_start 1)).thread2 ≡ finished
unfolding run
whole_two = (can_finish [] 1).2

no_lost_update_example : (run whole (main_start 1)).mem.shared_value ≡ 10000
no_lost_update_example = no_lost_update whole 1 whole_one whole_two
