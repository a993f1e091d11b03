-- ===== src/Threads.antt =====
-- lab1-2 and lab2: threads and processes that share a variable, a semaphore or a pipe. What they call
-- of the system is an interface, and the scheduler is a list of the threads that move.
pub mod Semaphore
pub mod Counter
pub mod Race
pub mod Pipe
pub mod Exec
pub mod Examples
use xjtu_oslab.Base.{ℕ, ◌+◌, ◌%◌}

-- `int shared` is its bit pattern.
abbrev pub word_size : ℕ
word_size = 4294967296

-- `shared++` on the value that was read, and `shared--`.
unfoldable pub increment : ℕ → ℕ
increment v = (v + 1) % word_size

unfoldable pub decrement : ℕ → ℕ
decrement v = (v + 4294967295) % word_size

-- The rounds of `add` and `sub`.
abbrev pub loop_count : ℕ
loop_count = 10000

-- Which of the two the scheduler lets move.
pub data Turn : Type 0 where
  first second : Turn
