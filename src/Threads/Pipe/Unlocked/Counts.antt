-- ===== src/Threads/Pipe/Unlocked/Counts.antt =====
-- What the parent of lab2/2-2_nolock.c can print at most.
use xjtu_oslab.Base.{
  ℕ, ◌+◌, ◌≤◌, ◌<◌, ◌≡◌, refl, ap, List, [], ◌∷◌, ◌++◌, Option, none, some, ltb, ltb→lt, ◌==◌,
  if◌then◌else◌, Bool-cases, inl, inr, length, length-append, take-all, sum_by, sum_by-append,
  arith,
}
use xjtu_oslab.Threads.{Turn, first, second}
use xjtu_oslab.Threads.Pipe.{Pipes, IsPipes, byte_count, char_of}
use xjtu_oslab.Threads.Pipe.Unlocked.{
  Pc, writing, exited, write_char, child, System, forked, turn, play, parent_prints,
}

abbrev is_byte : ℕ → ℕ → ℕ
is_byte b x = if x == b then 1 else 0

-- How often a byte occurs.
abbrev pub count : ℕ → List ℕ → ℕ
count b = sum_by (is_byte b)

-- `m` times the byte of the first child and `n` times that of the second, and no other.
pub record Mixed (m n : ℕ) (bytes : List ℕ) : Type 0 where
  pub count_first : count 49 bytes ≡ m
  pub count_second : count 50 bytes ≡ n
  pub no_other : length bytes ≡ m + n

Mixed-first : (m n : ℕ) (bytes : List ℕ) → Mixed m n bytes → Mixed (m + 1) n (bytes ++ 49 ∷ [])
Mixed-first m n bytes v = record {
  count_first = omega (arith, v, sum_by-append (is_byte 49) bytes (49 ∷ []));
  count_second = omega (arith, v, sum_by-append (is_byte 50) bytes (49 ∷ []));
  no_other = omega (arith, v, length-append bytes (49 ∷ []));
}

Mixed-second : (m n : ℕ) (bytes : List ℕ) → Mixed m n bytes → Mixed m (n + 1) (bytes ++ 50 ∷ [])
Mixed-second m n bytes v = record {
  count_first = omega (arith, v, sum_by-append (is_byte 49) bytes (50 ∷ []));
  count_second = omega (arith, v, sum_by-append (is_byte 50) bytes (50 ∷ []));
  no_other = omega (arith, v, length-append bytes (50 ∷ []));
}

-- The bytes that a child has written.
abbrev pub written : Pc → ℕ
written (writing i) = i
written exited = byte_count

abbrev IsShort : Pc → Type 0
IsShort p = written p ≤ byte_count

module _ (P : Pipes) (pipe_laws : IsPipes P) where
  write_first :
      (pipe : P.Pipe) (i n : ℕ) (o : Option P.Pipe)
      → P.write pipe (49 ∷ []) ≡ o
      → Mixed i n (P.contents pipe)
      → Mixed (written (write_char P pipe i o).1) n (P.contents (write_char P pipe i o).0)
  unfolding write_char
  write_first pipe i n none e v = v
  write_first pipe i n (some p) e v =
      rw (pipe_laws.contents-write pipe p (49 ∷ []) e) (Mixed-first i n (P.contents pipe) v)

  write_second :
      (pipe : P.Pipe) (m i : ℕ) (o : Option P.Pipe)
      → P.write pipe (50 ∷ []) ≡ o
      → Mixed m i (P.contents pipe)
      → Mixed m (written (write_char P pipe i o).1) (P.contents (write_char P pipe i o).0)
  unfolding write_char
  write_second pipe m i none e v = v
  write_second pipe m i (some p) e v =
      rw (pipe_laws.contents-write pipe p (50 ∷ []) e) (Mixed-second m i (P.contents pipe) v)

  write_char-IsShort :
      (pipe : P.Pipe) (i : ℕ) (o : Option P.Pipe)
      → i < byte_count
      → IsShort (write_char P pipe i o).1
  unfolding write_char
  write_char-IsShort pipe i none h = omega arith
  write_char-IsShort pipe i (some p) h = omega arith

  child-IsShort : (t : Turn) (pipe : P.Pipe) (p : Pc) → IsShort p → IsShort (child P t pipe p).1
  unfolding child
  child-IsShort t pipe (writing i) h = elim (Bool-cases (ltb i byte_count)) [
    | inl more ↦
        rw more
          (write_char-IsShort pipe i (P.write pipe (char_of t ∷ [])) (ltb→lt i byte_count more))
    | inr done ↦ rw done (omega arith)
  ]
  child-IsShort t pipe exited h = h

  child_first :
      (pipe : P.Pipe) (p : Pc) (n : ℕ)
      → IsShort p
      → Mixed (written p) n (P.contents pipe)
      → Mixed (written (child P first pipe p).1) n (P.contents (child P first pipe p).0)
  unfolding child char_of
  child_first pipe (writing i) n h v = elim (Bool-cases (ltb i byte_count)) [
    | inl more ↦ rw more (write_first pipe i n (P.write pipe (49 ∷ [])) refl v)
    | inr done ↦ let whole : byte_count ≡ i = ground arith in rw done (rw whole v)
  ]
  child_first pipe exited n h v = v

  child_second :
      (pipe : P.Pipe) (m : ℕ) (p : Pc)
      → IsShort p
      → Mixed m (written p) (P.contents pipe)
      → Mixed m (written (child P second pipe p).1) (P.contents (child P second pipe p).0)
  unfolding child char_of
  child_second pipe m (writing i) h v = elim (Bool-cases (ltb i byte_count)) [
    | inl more ↦ rw more (write_second pipe m i (P.write pipe (50 ∷ [])) refl v)
    | inr done ↦ let whole : byte_count ≡ i = ground arith in rw done (rw whole v)
  ]
  child_second pipe m exited h v = v

  pub record SystemInv (s : System P) : Type 0 where
    pub mixed : Mixed (written s.child1) (written s.child2) (P.contents s.pipe)
    pub short_first : IsShort s.child1
    pub short_second : IsShort s.child2

  turn-Inv : (t : Turn) (s : System P) → SystemInv s → SystemInv (turn P t s)
  unfolding turn
  turn-Inv first s v = record {
    mixed = child_first s.pipe s.child1 (written s.child2) v.short_first v.mixed;
    short_first = child-IsShort first s.pipe s.child1 v.short_first;
    short_second = v.short_second;
  }
  turn-Inv second s v = record {
    mixed = child_second s.pipe (written s.child1) s.child2 v.short_second v.mixed;
    short_first = v.short_first;
    short_second = child-IsShort second s.pipe s.child2 v.short_second;
  }

  play-Inv : (ts : List Turn) (s : System P) → SystemInv s → SystemInv (play P ts s)
  unfolding play
  play-Inv [] s v = v
  play-Inv (t ∷ ts) s v = play-Inv ts (turn P t s) (turn-Inv t s v)

  forked-Inv : SystemInv (forked P)
  unfolding forked
  forked-Inv = record {
    mixed = rw pipe_laws.contents-pipe (omega arith);
    short_first = omega arith;
    short_second = omega arith;
  }

  -- With a pipe that keeps its laws, under every schedule, when both children have exited, the parent
  -- prints as many 1 as the first child writes and as many 2 as the second, and nothing else.
  pub prints_all :
      (ts : List Turn)
      → (play P ts (forked P)).child1 ≡ exited
      → (play P ts (forked P)).child2 ≡ exited
      → Mixed byte_count byte_count (parent_prints P (play P ts (forked P)))
  unfolding parent_prints byte_count
  prints_all ts e f =
      let s = play P ts (forked P) in
      let v : Mixed (written s.child1) (written s.child2) (P.contents s.pipe) =
        (play-Inv ts (forked P) forked-Inv).mixed in
      rw
        (
          pipe_laws.read_lem s.pipe 4000,
          take-all 4000 (P.contents s.pipe) (omega (arith, v, ap written e, ap written f)),
        )
        (omega (arith, v, ap written e, ap written f))
