-- ===== src/Threads/Examples.antt =====
-- Schedules of the programs of lab1-2 with a concrete semaphore.
use xjtu_oslab.Base.{
  ◌*◌, ◌%◌, ℕ, zero, suc, ◌+◌, ◌≤◌, ◌≡◌, refl, List, [], ◌∷◌, Option, none, some, true, arith,
}
use xjtu_oslab.Threads.{word_size, loop_count, increment, decrement, Turn, first, second}
use xjtu_oslab.Threads.Race
use xjtu_oslab.Threads.Race.Bounds.{IsBetween, shared_bounds}
use xjtu_oslab.Threads.Race.Bounds
use xjtu_oslab.Threads.Race.Results.{every_result}
use xjtu_oslab.Threads.Exec
use xjtu_oslab.Threads.Exec.Order.{exec_never_waits}
use xjtu_oslab.Threads.Semaphore.{Semaphore, IsSemaphore}
use xjtu_oslab.Threads.Counter.{
  Process, head, waiting, loaded, returned, main_start, start_with, turn, play, add, sub,
  thread_access, wait_signal,
}
use xjtu_oslab.Threads.Counter.Invariant.{holds}
use xjtu_oslab.Threads.Counter.Safety.{one_inside, result_zero}
use xjtu_oslab.Threads.Counter.Progress.{can_return}

abbrev take_one : ℕ → Option ℕ
take_one zero = none
take_one (suc n) = some n

-- A semaphore that is its value.
abbrev counting : Semaphore
counting = record {
  Sem = ℕ;
  value = λ s. s;
  sem_init = some;
  sem_wait = take_one;
  sem_post = λ s. s + 1;
}

take_one-value : (s t : ℕ) → take_one s ≡ some t → s ≡ t + 1
take_one-value zero t e = ground arith
take_one-value (suc s) t e = ground arith

take_one-blocked : (s : ℕ) → take_one s ≡ none → s ≡ 0
take_one-blocked zero e = refl
take_one-blocked (suc s) e = ground arith

counting-IsSemaphore : IsSemaphore counting
counting-IsSemaphore = record {
  value-sem_init = λ n s e. ground arith;
  value-sem_wait = take_one-value;
  sem_wait-blocked = take_one-blocked;
  value-sem_post = λ s. refl;
}

abbrev process : Process counting
process = record { globals = record { signal = 1; shared = 0 }; thread1 = head 0; thread2 = head 0 }

started : main_start counting true true ≡ some process
unfolding main_start start_with
started = refl

-- Both threads wait, the second enters, and the first keeps waiting.
abbrev schedule : List Turn
schedule = first ∷ second ∷ second ∷ first ∷ second ∷ first ∷ []

contended : play counting schedule process ≡ record {
  globals = record { signal = 0; shared = 0 };
  thread1 = waiting 0;
  thread2 = loaded 0 0;
}
unfolding play turn add sub thread_access wait_signal
contended = refl

one_inside_example :
    holds (play counting schedule process).thread1 + holds (play counting schedule process).thread2
    ≤ 1
one_inside_example = one_inside counting counting-IsSemaphore true true process schedule started

can_return_example :
    (us : List Turn) × ((play counting us (play counting schedule process)).thread1 ≡ returned)
    × ((play counting us (play counting schedule process)).thread2 ≡ returned)
can_return_example = can_return counting counting-IsSemaphore true true process schedule started

-- A schedule after which both threads have returned.
abbrev whole : List Turn
whole = (can_return counting counting-IsSemaphore true true process [] started).0

whole_first : (play counting whole process).thread1 ≡ returned
unfolding play
whole_first = (can_return counting counting-IsSemaphore true true process [] started).1

whole_second : (play counting whole process).thread2 ≡ returned
unfolding play
whole_second = (can_return counting counting-IsSemaphore true true process [] started).2

result_zero_example : (play counting whole process).globals.shared ≡ 0
result_zero_example =
    result_zero counting counting-IsSemaphore true true process whole started whole_first
      whole_second

abbrev racing : Race.Process
racing = record { shared = 0; thread1 = Race.head 0; thread2 = Race.head 0 }

racing_started : Race.main_start true true ≡ some racing
unfolding Race.main_start
racing_started = refl

-- Both read 0; the first writes 1, which the second then overwrites.
abbrev overlap : List Turn
overlap = first ∷ second ∷ first ∷ second ∷ first ∷ second ∷ []

overlapped : (Race.play overlap racing).shared ≡ 4294967295
unfolding Race.play Race.turn Race.add Race.sub Race.thread_access increment decrement
overlapped = refl

shared_bounds_example :
    IsBetween
      (Bounds.written (Race.play overlap racing).thread1)
      (Bounds.written (Race.play overlap racing).thread2)
      (Race.play overlap racing).shared
    × ((Race.play overlap racing).shared + loop_count) % word_size ≤ 2 * loop_count
shared_bounds_example = shared_bounds true true racing overlap racing_started

-- The result -1164.
every_result_example :
    (ts : List Turn) × (Race.play ts racing
      ≡ record { shared = 4294966132; thread1 = Race.returned; thread2 = Race.returned })
every_result_example =
    every_result true true racing 4294966132 racing_started (omega arith) (omega arith)

abbrev executing : Exec.Process counting
executing = record {
  signal = 1;
  exec_ok = true;
  system_thread = Exec.calling;
  exec_thread = Exec.waiting;
}

executing_started : Exec.main_start counting true true true ≡ some executing
unfolding Exec.main_start Exec.start_with
executing_started = refl

-- The process is replaced before `system` has been called.
exec_first : Exec.play counting (second ∷ second ∷ first ∷ []) executing ≡ record {
  signal = 0;
  exec_ok = true;
  system_thread = Exec.calling;
  exec_thread = Exec.replaced;
}
unfolding Exec.play Exec.turn Exec.live_turn Exec.exec_func Exec.wait_signal
exec_first = refl

waits : (Exec.play counting (first ∷ []) executing).exec_thread ≡ Exec.waiting
unfolding Exec.play Exec.turn Exec.live_turn Exec.system_func
waits = refl

exec_never_waits_example :
    (Exec.turn counting second (Exec.play counting (first ∷ []) executing)).exec_thread
      ≡ Exec.executing
    × (Exec.turn counting second (Exec.play counting (first ∷ []) executing)).system_thread
      ≡ (Exec.play counting (first ∷ []) executing).system_thread
exec_never_waits_example =
    exec_never_waits counting counting-IsSemaphore true true true executing (first ∷ [])
      executing_started waits
