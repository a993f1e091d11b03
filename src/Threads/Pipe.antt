-- ===== src/Threads/Pipe.antt =====
-- lab2/2-2.c, 2-2_nolock.c and 2-2r.c: two child processes that write to one pipe, and the parent that
-- reads it after both have exited. What they call of the system is an interface.
pub mod Locked
pub mod Unlocked
pub mod Messages
pub mod Examples
use xjtu_oslab.Base.{
  ℕ, ◌+◌, ◌≤◌, ◌<◌, ◌≡◌, ◌≢◌, ◌⊎◌, List, [], ◌++◌, Option, none, some, length, take,
}
use xjtu_oslab.Threads.{Turn}

-- `write` is `none` while the writer has to wait.
pub record Pipes : Type 1 where
  pub Pipe : Type 0
  pub contents : Pipe → List ℕ
  pub pipe : Pipe
  pub write : Pipe → List ℕ → Option Pipe
  pub read : Pipe → ℕ → List ℕ

-- The manual's capacity of a pipe.
abbrev pub capacity : ℕ
capacity = 65536

-- What the manual says of writes of at most `PIPE_BUF` bytes: they are not torn, and they wait only
-- for room.
pub record IsPipes (P : Pipes) : Type 0 where
  pub contents-pipe : P.contents P.pipe ≡ []
  pub contents-write :
      (p p' : P.Pipe) (bytes : List ℕ)
      → P.write p bytes ≡ some p'
      → P.contents p' ≡ P.contents p ++ bytes
  pub write-blocked :
      (p : P.Pipe) (bytes : List ℕ)
      → length bytes ≤ 4096
      → P.write p bytes ≡ none
      → capacity < length (P.contents p) + length bytes
  pub read_lem : (p : P.Pipe) (n : ℕ) → P.read p n ≡ take n (P.contents p)

-- `lockf(fd[1], 1, 0)`, which is `none` while the caller has to wait, and `lockf(fd[1], 0, 0)`; the
-- caller is one of the two children.
pub record Locks : Type 1 where
  pub Lock : Type 0
  pub holder : Lock → Option Turn
  pub unlocked : Lock
  pub lock : Lock → Turn → Option Lock
  pub unlock : Lock → Turn → Lock

pub record IsLocks (L : Locks) : Type 0 where
  pub holder-unlocked : L.holder L.unlocked ≡ none
  pub holder-lock : (l l' : L.Lock) (t : Turn) → L.lock l t ≡ some l' → L.holder l' ≡ some t
  pub lock-free :
      (l l' : L.Lock) (t : Turn)
      → L.lock l t ≡ some l'
      → (L.holder l ≡ none) ⊎ (L.holder l ≡ some t)
  pub lock-blocked :
      (l : L.Lock) (t : Turn) → L.lock l t ≡ none → (L.holder l ≢ none) × (L.holder l ≢ some t)
  pub holder-unlock : (l : L.Lock) (t : Turn) → L.holder l ≡ some t → L.holder (L.unlock l t) ≡ none

-- The bytes that each child of 2-2.c writes.
unfoldable pub byte_count : ℕ
byte_count = 2000

-- `c1` and `c2`
unfoldable pub char_of : Turn → ℕ
char_of Turn.first = 49
char_of Turn.second = 50
