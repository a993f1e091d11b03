-- ===== src/Threads/Pipe/Messages.antt =====
-- lab2/2-2r.c: each child writes one message of 35 bytes, which fills at most `PIPE_BUF`, and the
-- parent reads 70 bytes after both have exited.
pub mod Whole
use xjtu_oslab.Base.{
  ◌≡◌, ◌∙◌, ap, ℕ, List, [], ◌∷◌, ◌++◌, Option, none, some, inl, inr, ◌⊎◌, refl, sym, take, length,
}
use xjtu_oslab.Threads.{Turn, first, second}
use xjtu_oslab.Threads.Pipe.{Pipes, IsPipes}

-- What `strcpy` puts into `OutPipe`, without the byte behind it.
unfoldable pub message_of : Turn → List ℕ
message_of first =
    67 ∷ 104 ∷ 105 ∷ 108 ∷ 100 ∷ 32 ∷ 80 ∷ 114 ∷ 111 ∷ 99 ∷ 101 ∷ 115 ∷ 115 ∷ 32 ∷ 49 ∷ 32 ∷ 105
    ∷ 115 ∷ 32 ∷ 115 ∷ 101 ∷ 110 ∷ 100 ∷ 105 ∷ 110 ∷ 103 ∷ 32 ∷ 109 ∷ 101 ∷ 115 ∷ 115 ∷ 97 ∷ 103
    ∷ 101 ∷ 33 ∷ []
message_of second =
    67 ∷ 104 ∷ 105 ∷ 108 ∷ 100 ∷ 32 ∷ 80 ∷ 114 ∷ 111 ∷ 99 ∷ 101 ∷ 115 ∷ 115 ∷ 32 ∷ 50 ∷ 32 ∷ 105
    ∷ 115 ∷ 32 ∷ 115 ∷ 101 ∷ 110 ∷ 100 ∷ 105 ∷ 110 ∷ 103 ∷ 32 ∷ 109 ∷ 101 ∷ 115 ∷ 115 ∷ 97 ∷ 103
    ∷ 101 ∷ 33 ∷ []

-- Where a child stands.
pub data Pc : Type 0 where
  sending exited : Pc

module _ (P : Pipes) where
  pub record System : Type 0 where
    pub pipe : P.Pipe
    pub child1 : Pc
    pub child2 : Pc

  unfoldable pub forked : System
  forked = record { pipe = P.pipe; child1 = sending; child2 = sending }

  unfoldable pub written : P.Pipe → Option P.Pipe → P.Pipe × Pc
  written pipe none = (pipe, sending)
  written pipe (some p) = (p, exited)

  unfoldable pub child : Turn → P.Pipe → Pc → P.Pipe × Pc
  unfolding written
  child t pipe sending = written pipe (P.write pipe (message_of t))
  child t pipe exited = (pipe, exited)

  unfoldable pub turn : Turn → System → System
  turn first s = let (m, p) = child first s.pipe s.child1 in record s { pipe = m; child1 = p }
  turn second s = let (m, p) = child second s.pipe s.child2 in record s { pipe = m; child2 = p }

  unfoldable pub play : List Turn → System → System
  play [] s = s
  play (t ∷ ts) s = play ts (turn t s)

  -- What the parent prints after both calls of `wait`: `InPipe`, of which byte 70 is the end.
  unfoldable pub parent_prints : System → List ℕ
  parent_prints s = P.read s.pipe 70
