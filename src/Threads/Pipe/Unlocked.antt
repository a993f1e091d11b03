-- ===== src/Threads/Pipe/Unlocked.antt =====
-- lab2/2-2_nolock.c: each child writes its 2000 bytes without a lock, one call of the system at a
-- time, in any interleaving.
pub mod Counts
pub mod Every
use xjtu_oslab.Base.{ℕ, ◌+◌, List, [], ◌∷◌, Option, none, some, ltb, if◌then◌else◌}
use xjtu_oslab.Threads.{Turn, first, second}
use xjtu_oslab.Threads.Pipe.{Pipes, byte_count, char_of}

-- Where a child stands, with its local variable `i`.
pub data Pc : Type 0 where
  writing : ℕ → Pc  -- the test of the `for`, and the `write` behind it
  exited : Pc

module _ (P : Pipes) where
  unfoldable pub write_char : P.Pipe → ℕ → Option P.Pipe → P.Pipe × Pc
  write_char pipe i none = (pipe, writing i)
  write_char pipe i (some p) = (p, writing (i + 1))

  -- One call of a child.
  unfoldable pub child : Turn → P.Pipe → Pc → P.Pipe × Pc
  unfolding write_char
  child t pipe (writing i) =
      if ltb i byte_count then write_char pipe i (P.write pipe (char_of t ∷ [])) else (pipe, exited)
  child t pipe exited = (pipe, exited)

  pub record System : Type 0 where
    pub pipe : P.Pipe
    pub child1 : Pc
    pub child2 : Pc

  -- After both calls of `fork`, which the parent repeats until they succeed.
  unfoldable pub forked : System
  forked = record { pipe = P.pipe; child1 = writing 0; child2 = writing 0 }

  unfoldable pub turn : Turn → System → System
  turn first s = let (m, p) = child first s.pipe s.child1 in record s { pipe = m; child1 = p }
  turn second s = let (m, p) = child second s.pipe s.child2 in record s { pipe = m; child2 = p }

  unfoldable pub play : List Turn → System → System
  play [] s = s
  play (t ∷ ts) s = play ts (turn t s)

  -- What the parent prints after both calls of `wait`: `InPipe`, of which byte 4000 is the end.
  unfoldable pub parent_prints : System → List ℕ
  parent_prints s = P.read s.pipe 4000
