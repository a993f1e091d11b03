-- ===== src/Threads/Pipe/Messages/Whole.antt =====
-- What the parent of lab2/2-2r.c prints.
use xjtu_oslab.Base.{
  ◌≡◌, ◌∙◌, ap, ℕ, List, [], ◌∷◌, ◌++◌, Option, none, some, inl, inr, ◌⊎◌, refl, take, arith,
}
use xjtu_oslab.Threads.{Turn, first, second}
use xjtu_oslab.Threads.Pipe.{Pipes, IsPipes}
use xjtu_oslab.Threads.Pipe.Messages.{
  message_of, Pc, sending, exited, System, forked, written, child, turn, play, parent_prints,
}

-- What the pipe holds, by where the children stand.
data Sent : Pc → Pc → List ℕ → Type 0 where
  neither : {bytes : List ℕ} → bytes ≡ [] → Sent sending sending bytes
  one_only : {bytes : List ℕ} → bytes ≡ message_of first → Sent exited sending bytes
  two_only : {bytes : List ℕ} → bytes ≡ message_of second → Sent sending exited bytes
  one_two :
      {bytes : List ℕ} → bytes ≡ message_of first ++ message_of second → Sent exited exited bytes
  two_one :
      {bytes : List ℕ} → bytes ≡ message_of second ++ message_of first → Sent exited exited bytes

Sent-first :
    (q : Pc) (bytes : List ℕ) → Sent sending q bytes → Sent exited q (bytes ++ message_of first)
Sent-first sending bytes (neither e) = one_only (ap (λ l. l ++ message_of first) e)
Sent-first exited bytes (two_only e) = two_one (ap (λ l. l ++ message_of first) e)

Sent-second :
    (p : Pc) (bytes : List ℕ) → Sent p sending bytes → Sent p exited (bytes ++ message_of second)
Sent-second sending bytes (neither e) = two_only (ap (λ l. l ++ message_of second) e)
Sent-second exited bytes (one_only e) = one_two (ap (λ l. l ++ message_of second) e)

both :
    (p q : Pc) (bytes : List ℕ)
    → p ≡ exited
    → q ≡ exited
    → Sent p q bytes
    → (bytes ≡ message_of first ++ message_of second)
      ⊎ (bytes ≡ message_of second ++ message_of first)
both p q bytes e f (neither h) = absurd (ground arith)
both p q bytes e f (one_only h) = absurd (ground arith)
both p q bytes e f (two_only h) = absurd (ground arith)
both p q bytes e f (one_two h) = inl h
both p q bytes e f (two_one h) = inr h

module _ (P : Pipes) (pipe_laws : IsPipes P) where
  written-first :
      (pipe : P.Pipe) (q : Pc) (o : Option P.Pipe)
      → P.write pipe (message_of first) ≡ o
      → Sent sending q (P.contents pipe)
      → Sent (written P pipe o).1 q (P.contents (written P pipe o).0)
  unfolding written
  written-first pipe q none e v = v
  written-first pipe q (some p) e v =
      rw (pipe_laws.contents-write pipe p (message_of first) e) (Sent-first q (P.contents pipe) v)

  written-second :
      (pipe : P.Pipe) (p : Pc) (o : Option P.Pipe)
      → P.write pipe (message_of second) ≡ o
      → Sent p sending (P.contents pipe)
      → Sent p (written P pipe o).1 (P.contents (written P pipe o).0)
  unfolding written
  written-second pipe p none e v = v
  written-second pipe p (some pipe') e v =
      rw (pipe_laws.contents-write pipe pipe' (message_of second) e)
        (Sent-second p (P.contents pipe) v)

  abbrev SystemInv : System P → Type 0
  SystemInv s = Sent s.child1 s.child2 (P.contents s.pipe)

  child_first-Sent :
      (pipe : P.Pipe) (p q : Pc)
      → Sent p q (P.contents pipe)
      → Sent (child P first pipe p).1 q (P.contents (child P first pipe p).0)
  unfolding child
  child_first-Sent pipe sending q v = written-first pipe q (P.write pipe (message_of first)) refl v
  child_first-Sent pipe exited q v = v

  child_second-Sent :
      (pipe : P.Pipe) (p q : Pc)
      → Sent p q (P.contents pipe)
      → Sent p (child P second pipe q).1 (P.contents (child P second pipe q).0)
  unfolding child
  child_second-Sent pipe p sending v =
      written-second pipe p (P.write pipe (message_of second)) refl v
  child_second-Sent pipe p exited v = v

  play-Inv : (ts : List Turn) (s : System P) → SystemInv s → SystemInv (play P ts s)
  unfolding play turn
  play-Inv [] s v = v
  play-Inv (first ∷ ts) s v =
      play-Inv ts (turn P first s) (child_first-Sent s.pipe s.child1 s.child2 v)
  play-Inv (second ∷ ts) s v =
      play-Inv ts (turn P second s) (child_second-Sent s.pipe s.child1 s.child2 v)

  forked-Inv : SystemInv (forked P)
  unfolding forked
  forked-Inv = neither pipe_laws.contents-pipe

  -- With a pipe that keeps its laws, under every schedule, when both children have exited, the parent
  -- prints one message after the other, neither torn, in one of the two orders.
  pub messages_whole :
      (ts : List Turn)
      → (play P ts (forked P)).child1 ≡ exited
      → (play P ts (forked P)).child2 ≡ exited
      → (parent_prints P (play P ts (forked P)) ≡ message_of first ++ message_of second)
        ⊎ (parent_prints P (play P ts (forked P)) ≡ message_of second ++ message_of first)
  unfolding parent_prints message_of
  messages_whole ts e f =
      let s = play P ts (forked P) in
      let read = pipe_laws.read_lem s.pipe 70 in
      elim (both s.child1 s.child2 (P.contents s.pipe) e f (play-Inv ts (forked P) forked-Inv)) [
        | inl b ↦ inl (read ∙ ap (take 70) b)
        | inr b ↦ inr (read ∙ ap (take 70) b)
      ]
