-- ===== src/Threads/Race.antt =====
-- lab1-2/1-2.c: one thread that increments `shared` and one that decrements it, without a lock, one
-- shared access at a time, in any interleaving.
pub mod Bounds
pub mod Results
use xjtu_oslab.Base.{ℕ, ◌+◌, List, [], ◌∷◌, Option, none, some, Bool, ltb, if◌then◌else◌, ◌&&◌}
use xjtu_oslab.Threads.{increment, decrement, loop_count, Turn, first, second}

-- Where a thread stands in `add` or `sub`, with its local variables: `i`, and what it has read.
pub data Pc : Type 0 where
  head : ℕ → Pc  -- the test of the `for`
  ready : ℕ → Pc  -- before `shared` is read
  loaded : ℕ → ℕ → Pc  -- before it is written
  returned : Pc

-- One step of a thread whose statement on `shared` is `change`.
unfoldable pub thread_access : (ℕ → ℕ) → ℕ → Pc → ℕ × Pc
thread_access change shared (head i) = (shared, if ltb i loop_count then ready i else returned)
thread_access change shared (ready i) = (shared, loaded i shared)
thread_access change shared (loaded i v) = (change v, head (i + 1))
thread_access change shared returned = (shared, returned)

unfoldable pub add : ℕ → Pc → ℕ × Pc
unfolding thread_access
add = thread_access increment

unfoldable pub sub : ℕ → Pc → ℕ × Pc
unfolding thread_access
sub = thread_access decrement

pub record Process : Type 0 where
  pub shared : ℕ
  pub thread1 : Pc
  pub thread2 : Pc

-- Both calls of `pthread_create` say whether they succeed. `none` where `main` returns 1.
unfoldable pub main_start : Bool → Bool → Option Process
main_start created1 created2 =
    if created1 && created2
    then some (record { shared = 0; thread1 = head 0; thread2 = head 0 })
    else none

unfoldable pub turn : Turn → Process → Process
turn first s = let (x, p) = add s.shared s.thread1 in record s { shared = x; thread1 = p }
turn second s = let (x, p) = sub s.shared s.thread2 in record s { shared = x; thread2 = p }

unfoldable pub play : List Turn → Process → Process
play [] s = s
play (t ∷ ts) s = play ts (turn t s)
