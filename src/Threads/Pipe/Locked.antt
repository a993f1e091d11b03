-- ===== src/Threads/Pipe/Locked.antt =====
-- lab2/2-2.c: each child writes its 2000 bytes under a lock on the pipe, one call of the system at a
-- time, in any interleaving. The result of `lockf` is not tested by the source, and that it succeeds
-- is part of the interface.
pub mod Order
pub mod Invariant
pub mod Result
pub mod Progress
use xjtu_oslab.Base.{ℕ, ◌+◌, List, [], ◌∷◌, Option, none, some, ltb, if◌then◌else◌}
use xjtu_oslab.Threads.{Turn, first, second}
use xjtu_oslab.Threads.Pipe.{Pipes, Locks, byte_count, char_of}

-- Where a child stands, with its local variable `i`.
pub data Pc : Type 0 where
  starting : Pc  -- before the first `lockf` returns
  writing : ℕ → Pc  -- the test of the `for`, and the `write` behind it
  unlocking : Pc  -- before the second `lockf`, the `sleep` included
  exited : Pc

module _ (P : Pipes) (L : Locks) where
  pub record Shared : Type 0 where
    pub lock : L.Lock
    pub pipe : P.Pipe

  unfoldable pub lock_pipe : Shared → Option L.Lock → Shared × Pc
  lock_pipe m none = (m, starting)
  lock_pipe m (some l) = (record m { lock = l }, writing 0)

  unfoldable pub write_char : Shared → ℕ → Option P.Pipe → Shared × Pc
  write_char m i none = (m, writing i)
  write_char m i (some p) = (record m { pipe = p }, writing (i + 1))

  -- One call of a child.
  unfoldable pub child : Turn → Shared → Pc → Shared × Pc
  unfolding lock_pipe write_char
  child t m starting = lock_pipe m (L.lock m.lock t)
  child t m (writing i) =
      if ltb i byte_count then write_char m i (P.write m.pipe (char_of t ∷ [])) else (m, unlocking)
  child t m unlocking = (record m { lock = L.unlock m.lock t }, exited)
  child t m exited = (m, exited)

  pub record System : Type 0 where
    pub shared : Shared
    pub child1 : Pc
    pub child2 : Pc

  -- After both calls of `fork`, which the parent repeats until they succeed.
  unfoldable pub forked : System
  forked = record {
    shared = record { lock = L.unlocked; pipe = P.pipe };
    child1 = starting;
    child2 = starting;
  }

  unfoldable pub turn : Turn → System → System
  turn first s = let (m, p) = child first s.shared s.child1 in record s { shared = m; child1 = p }
  turn second s = let (m, p) = child second s.shared s.child2 in record s { shared = m; child2 = p }

  unfoldable pub play : List Turn → System → System
  play [] s = s
  play (t ∷ ts) s = play ts (turn t s)

  -- What the parent prints after both calls of `wait`: `InPipe`, of which byte 4000 is the end.
  unfoldable pub parent_prints : System → List ℕ
  parent_prints s = P.read s.shared.pipe 4000
