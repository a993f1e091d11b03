-- ===== src/Threads/Pipe/Unlocked/Every.antt =====
-- What the parent of lab2/2-2_nolock.c can print.
use xjtu_oslab.Base.{
  take, take-all, false, ◌++◌, ap, ◌⊎◌, ℕ, ◌+◌, ◌≤◌, ◌<◌, ◌≡◌, refl, sym, ◌∙◌, List, [], ◌∷◌,
  Option-cases, some, lt→ltb, ◌==◌, Bool-cases, inl, inr, length, length-append, arith,
}
use mathlib.Core.Path.{subst, ap₂}
use mathlib.Core.List.{append_assoc, append-nil}
use xjtu_oslab.Threads.{Turn, first, second}
use xjtu_oslab.Threads.Pipe.{Pipes, IsPipes, byte_count, char_of}
use xjtu_oslab.Threads.Pipe.Unlocked.{
  forked, play, parent_prints, exited, writing, write_char, child, System, turn,
}
use xjtu_oslab.Threads.Pipe.Unlocked.Counts.{count, Mixed}

count_le : (bytes : List ℕ) → count 49 bytes + count 50 bytes ≤ length bytes
count_le [] = omega arith
count_le (x ∷ bytes) = ground (arith, count_le bytes)

count_other :
    (x : ℕ) (bytes : List ℕ)
    → (x == 49) ≡ false
    → (x == 50) ≡ false
    → count 49 (x ∷ bytes) + count 50 (x ∷ bytes) ≡ count 49 bytes + count 50 bytes
count_other x bytes e f = rw (e, f) (omega arith)

-- The first byte is one of the two.
Mixed-head : (m n x : ℕ) (bytes : List ℕ) → Mixed m n (x ∷ bytes) → (x ≡ 49) ⊎ (x ≡ 50)
Mixed-head m n x bytes v = elim (Bool-cases (x == 49)) [
  | inl e ↦ inl (ground arith)
  | inr e ↦ elim (Bool-cases (x == 50)) [
    | inl f ↦ inr (ground arith)
    | inr f ↦ absurd (omega (arith, v, count_other x bytes e f, count_le bytes))
  ]
]

Mixed-tail_first :
    (m n : ℕ) (bytes : List ℕ)
    → Mixed m n (49 ∷ bytes)
    → Mixed (count 49 bytes) n bytes × (m ≡ count 49 bytes + 1)
Mixed-tail_first m n bytes v = omega (arith, v)

Mixed-tail_second :
    (m n : ℕ) (bytes : List ℕ)
    → Mixed m n (50 ∷ bytes)
    → Mixed m (count 50 bytes) bytes × (n ≡ count 50 bytes + 1)
Mixed-tail_second m n bytes v = omega (arith, v)

room : byte_count + byte_count < 65536
unfolding byte_count
room = omega arith

whole : byte_count + byte_count ≤ 4000
unfolding byte_count
whole = omega arith

module _ (P : Pipes) (pipe_laws : IsPipes P) where
  abbrev at : P.Pipe → ℕ → ℕ → System P
  at p i j = record { pipe = p; child1 = writing i; child2 = writing j }

  -- There is room for one more byte.
  write_one :
      (pipe : P.Pipe) (c : ℕ)
      → length (P.contents pipe) < 65536
      → (p : P.Pipe) × (P.write pipe (c ∷ []) ≡ some p)
  write_one pipe c h = elim (Option-cases (P.write pipe (c ∷ []))) [
    | inl e ↦ absurd (omega (arith, pipe_laws.write-blocked pipe (c ∷ []) (omega arith) e))
    | inr found ↦ found
  ]

  turn_first :
      (pipe p : P.Pipe) (i j : ℕ)
      → i < byte_count
      → P.write pipe (49 ∷ []) ≡ some p
      → turn P first (at pipe i j) ≡ at p (i + 1) j
  unfolding turn child write_char char_of
  turn_first pipe p i j h e = rw (lt→ltb i byte_count h, e) refl

  turn_second :
      (pipe p : P.Pipe) (i j : ℕ)
      → j < byte_count
      → P.write pipe (50 ∷ []) ≡ some p
      → turn P second (at pipe i j) ≡ at p i (j + 1)
  unfolding turn child write_char char_of
  turn_second pipe p i j h e = rw (lt→ltb j byte_count h, e) refl

  exits :
      (pipe : P.Pipe)
      → play P (first ∷ second ∷ []) (at pipe byte_count byte_count)
        ≡ record { pipe = pipe; child1 = exited; child2 = exited }
  unfolding play turn child byte_count
  exits pipe = refl

  -- Some schedule appends the bytes, and both children have exited after it.
  abbrev Appends : P.Pipe → ℕ → ℕ → List ℕ → Type 0
  Appends pipe i j bytes =
      (ts : List Turn) × (p : P.Pipe) × (play P ts (at pipe i j)
        ≡ record { pipe = p; child1 = exited; child2 = exited })
      × (P.contents p ≡ P.contents pipe ++ bytes)

  appended :
      (pipe p p' : P.Pipe) (c : ℕ) (bytes : List ℕ)
      → P.write pipe (c ∷ []) ≡ some p
      → P.contents p' ≡ P.contents p ++ bytes
      → P.contents p' ≡ P.contents pipe ++ c ∷ bytes
  appended pipe p p' c bytes w e =
      e
      ∙ ap (λ l. l ++ bytes) (pipe_laws.contents-write pipe p (c ∷ []) w)
      ∙ append_assoc (P.contents pipe) (c ∷ []) bytes

  Appends-first :
      (pipe p : P.Pipe) (i j : ℕ) (bytes : List ℕ)
      → i < byte_count
      → P.write pipe (49 ∷ []) ≡ some p
      → Appends p (i + 1) j bytes
      → Appends pipe i j (49 ∷ bytes)
  unfolding play
  Appends-first pipe p i j bytes h w (ts, p', run, e) = (
    first ∷ ts,
    p',
    ap (play P ts) (turn_first pipe p i j h w) ∙ run,
    appended pipe p p' 49 bytes w e,
  )

  Appends-second :
      (pipe p : P.Pipe) (i j : ℕ) (bytes : List ℕ)
      → j < byte_count
      → P.write pipe (50 ∷ []) ≡ some p
      → Appends p i (j + 1) bytes
      → Appends pipe i j (50 ∷ bytes)
  unfolding play
  Appends-second pipe p i j bytes h w (ts, p', run, e) = (
    second ∷ ts,
    p',
    ap (play P ts) (turn_second pipe p i j h w) ∙ run,
    appended pipe p p' 50 bytes w e,
  )

  length-written :
      (pipe p : P.Pipe) (c : ℕ)
      → P.write pipe (c ∷ []) ≡ some p
      → length (P.contents p) ≡ length (P.contents pipe) + 1
  length-written pipe p c w = omega (
    arith,
    ap length (pipe_laws.contents-write pipe p (c ∷ []) w),
    length-append (P.contents pipe) (c ∷ []),
  )

  append_bytes :
      (bytes : List ℕ) (pipe : P.Pipe) (i j m n : ℕ)
      → Mixed m n bytes
      → i + m ≡ byte_count
      → j + n ≡ byte_count
      → length (P.contents pipe) ≡ i + j
      → Appends pipe i j bytes
  append_bytes [] pipe i j m n v e f l =
      let i_end : i ≡ byte_count = omega (arith, v) in
      let j_end : j ≡ byte_count = omega (arith, v) in
      (
        first ∷ second ∷ [],
        pipe,
        ap₂ (λ a b. play P (first ∷ second ∷ []) (at pipe a b)) i_end j_end ∙ exits pipe,
        sym (append-nil (P.contents pipe)),
      )
  append_bytes (x ∷ bytes) pipe i j m n v e f l = elim (Mixed-head m n x bytes v) [
    | inl is ↦
        let (v', more) = Mixed-tail_first m n bytes (subst (λ a. Mixed m n (a ∷ bytes)) is v) in
        let (p, w) = write_one pipe 49 (omega (arith, room)) in
        subst (λ a. Appends pipe i j (a ∷ bytes)) (sym is)
          (Appends-first pipe p i j bytes (omega arith) w (
            append_bytes bytes p (i + 1) j (count 49 bytes) n v' (omega arith) f
              (omega (arith, length-written pipe p 49 w))))
    | inr is ↦
        let (v', more) = Mixed-tail_second m n bytes (subst (λ a. Mixed m n (a ∷ bytes)) is v) in
        let (p, w) = write_one pipe 50 (omega (arith, room)) in
        subst (λ a. Appends pipe i j (a ∷ bytes)) (sym is)
          (Appends-second pipe p i j bytes (omega arith) w (
            append_bytes bytes p i (j + 1) m (count 50 bytes) v' e (omega arith)
              (omega (arith, length-written pipe p 50 w))))
  ]

  -- With a pipe that keeps its laws, every sequence of the bytes that both children write, and of no
  -- other, is what the parent prints after some schedule, after which both have exited.
  pub every_mix :
      (bytes : List ℕ)
      → Mixed byte_count byte_count bytes
      → (ts : List Turn) × ((play P ts (forked P)).child1 ≡ exited)
        × ((play P ts (forked P)).child2 ≡ exited)
        × (parent_prints P (play P ts (forked P)) ≡ bytes)
  unfolding forked parent_prints
  every_mix bytes v =
      let (ts, p, run, e) =
        append_bytes bytes P.pipe 0 0 byte_count byte_count v (omega arith) (omega arith)
          (ap length pipe_laws.contents-pipe) in
      (
        ts,
        ap (λ s. s.child1) run,
        ap (λ s. s.child2) run,
        ap (λ s. P.read s.pipe 4000) run
            ∙ pipe_laws.read_lem p 4000
            ∙ ap (take 4000) (e ∙ ap (λ l. l ++ bytes) pipe_laws.contents-pipe)
            ∙ take-all 4000 bytes (omega (arith, v, whole)),
      )
