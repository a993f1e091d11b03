-- ===== src/Threads/Pipe/Examples.antt =====
-- Schedules of the programs of lab2 with a concrete pipe and a concrete lock.
use xjtu_oslab.Base.{
  zero, suc, ℕ, ◌+◌, ◌<◌, ◌≡◌, ◌≢◌, ◌⊎◌, inl, inr, refl, List, [], ◌∷◌, ◌++◌, Option, none, some,
  leb, if◌then◌else◌, length, take, arith,
}
use xjtu_oslab.Threads.{Turn, first, second}
use xjtu_oslab.Threads.Pipe.{Pipes, IsPipes, Locks, IsLocks, char_of, byte_count}
use xjtu_oslab.Threads.Pipe.Locked
use xjtu_oslab.Threads.Pipe.Locked.Result.{in_order, prints_in_order}
use xjtu_oslab.Threads.Pipe.Locked.Progress.{can_exit}
use xjtu_oslab.Threads.Pipe.Unlocked
use xjtu_oslab.Threads.Pipe.Unlocked.Counts.{Mixed, prints_all}
use xjtu_oslab.Threads.Pipe.Unlocked.Every.{every_mix}
use xjtu_oslab.Threads.Pipe.Messages
use xjtu_oslab.Threads.Pipe.Messages.{message_of}
use xjtu_oslab.Threads.Pipe.Messages.Whole.{messages_whole}

abbrev put : List ℕ → List ℕ → Option (List ℕ)
put p bytes = if leb (length p + length bytes) 65536 then some (p ++ bytes) else none

-- A pipe that is its contents.
abbrev bytes_pipe : Pipes
bytes_pipe = record {
  Pipe = List ℕ;
  contents = λ p. p;
  pipe = [];
  write = put;
  read = λ p n. take n p;
}

put-contents : (p p' bytes : List ℕ) → put p bytes ≡ some p' → p' ≡ p ++ bytes
put-contents p p' bytes e = ground arith

put-blocked : (p bytes : List ℕ) → put p bytes ≡ none → 65536 < length p + length bytes
put-blocked p bytes e = ground arith

bytes_pipe-IsPipes : IsPipes bytes_pipe
bytes_pipe-IsPipes = record {
  contents-pipe = refl;
  contents-write = put-contents;
  write-blocked = λ p bytes h e. put-blocked p bytes e;
  read_lem = λ p n. refl;
}

abbrev take_lock : Option Turn → Turn → Option (Option Turn)
take_lock none t = some (some t)
take_lock (some first) first = some (some first)
take_lock (some second) second = some (some second)
take_lock (some first) second = none
take_lock (some second) first = none

-- A lock that is its holder.
abbrev owner_lock : Locks
owner_lock = record {
  Lock = Option Turn;
  holder = λ l. l;
  unlocked = none;
  lock = take_lock;
  unlock = λ l t. none;
}

take_lock-holder : (l l' : Option Turn) (t : Turn) → take_lock l t ≡ some l' → l' ≡ some t
take_lock-holder none l' t e = ground arith
take_lock-holder (some first) l' first e = ground arith
take_lock-holder (some second) l' second e = ground arith
take_lock-holder (some first) l' second e = ground arith
take_lock-holder (some second) l' first e = ground arith

take_lock-free :
    (l l' : Option Turn) (t : Turn) → take_lock l t ≡ some l' → (l ≡ none) ⊎ (l ≡ some t)
take_lock-free none l' t e = inl refl
take_lock-free (some first) l' first e = inr refl
take_lock-free (some second) l' second e = inr refl
take_lock-free (some first) l' second e = ground arith
take_lock-free (some second) l' first e = ground arith

take_lock-blocked : (l : Option Turn) (t : Turn) → take_lock l t ≡ none → (l ≢ none) × (l ≢ some t)
take_lock-blocked none t e = ground arith
take_lock-blocked (some first) first e = ground arith
take_lock-blocked (some second) second e = ground arith
take_lock-blocked (some first) second e = ground arith
take_lock-blocked (some second) first e = ground arith

owner_lock-IsLocks : IsLocks owner_lock
owner_lock-IsLocks = record {
  holder-unlocked = refl;
  holder-lock = take_lock-holder;
  lock-free = take_lock-free;
  lock-blocked = take_lock-blocked;
  holder-unlock = λ l t e. refl;
}

-- The second child takes the lock while the first waits for it, and writes.
abbrev locked_schedule : List Turn
locked_schedule = second ∷ first ∷ second ∷ second ∷ first ∷ []

locked_run :
    (Locked.play bytes_pipe owner_lock locked_schedule
      (Locked.forked bytes_pipe owner_lock)).shared.pipe
    ≡ 50 ∷ 50 ∷ []
unfolding Locked.play Locked.turn Locked.child Locked.forked Locked.lock_pipe Locked.write_char
    char_of byte_count
locked_run = refl

can_exit_example :
    (us : List Turn) × ((Locked.play bytes_pipe owner_lock us (
        Locked.play bytes_pipe owner_lock locked_schedule
          (Locked.forked bytes_pipe owner_lock))).child1
      ≡ Locked.exited)
    × ((Locked.play bytes_pipe owner_lock us (
          Locked.play bytes_pipe owner_lock locked_schedule
            (Locked.forked bytes_pipe owner_lock))).child2
        ≡ Locked.exited)
can_exit_example =
    can_exit bytes_pipe bytes_pipe-IsPipes owner_lock owner_lock-IsLocks locked_schedule

-- A schedule after which both children have exited.
abbrev whole : List Turn
whole = (can_exit bytes_pipe bytes_pipe-IsPipes owner_lock owner_lock-IsLocks []).0

whole_first :
    (Locked.play bytes_pipe owner_lock whole (Locked.forked bytes_pipe owner_lock)).child1
    ≡ Locked.exited
unfolding Locked.play
whole_first = (can_exit bytes_pipe bytes_pipe-IsPipes owner_lock owner_lock-IsLocks []).1

whole_second :
    (Locked.play bytes_pipe owner_lock whole (Locked.forked bytes_pipe owner_lock)).child2
    ≡ Locked.exited
unfolding Locked.play
whole_second = (can_exit bytes_pipe bytes_pipe-IsPipes owner_lock owner_lock-IsLocks []).2

prints_in_order_example :
    (Locked.parent_prints bytes_pipe owner_lock
        (Locked.play bytes_pipe owner_lock whole (Locked.forked bytes_pipe owner_lock))
      ≡ in_order (char_of first) (char_of second))
    ⊎ (Locked.parent_prints bytes_pipe owner_lock
          (Locked.play bytes_pipe owner_lock whole (Locked.forked bytes_pipe owner_lock))
        ≡ in_order (char_of second) (char_of first))
prints_in_order_example =
    prints_in_order bytes_pipe bytes_pipe-IsPipes owner_lock owner_lock-IsLocks whole whole_first
      whole_second

-- Alternating bytes.
abbrev alternating : ℕ → List ℕ
alternating zero = []
alternating (suc n) = 49 ∷ 50 ∷ alternating n

alternating-Mixed : (n : ℕ) → Mixed n n (alternating n)
alternating-Mixed zero = omega arith
alternating-Mixed (suc n) = omega (arith, alternating-Mixed n)

every_mix_example :
    (ts : List Turn) × ((Unlocked.play bytes_pipe ts (Unlocked.forked bytes_pipe)).child1
      ≡ Unlocked.exited)
    × ((Unlocked.play bytes_pipe ts (Unlocked.forked bytes_pipe)).child2 ≡ Unlocked.exited)
    × (Unlocked.parent_prints bytes_pipe (Unlocked.play bytes_pipe ts (Unlocked.forked bytes_pipe))
        ≡ alternating byte_count)
every_mix_example =
    every_mix bytes_pipe bytes_pipe-IsPipes (alternating byte_count) (alternating-Mixed byte_count)

-- The schedule of the alternating bytes.
abbrev mixing : List Turn
mixing =
    (every_mix bytes_pipe bytes_pipe-IsPipes (alternating byte_count)
      (alternating-Mixed byte_count)).0

prints_all_example : Mixed byte_count byte_count (
    Unlocked.parent_prints bytes_pipe
      (Unlocked.play bytes_pipe mixing (Unlocked.forked bytes_pipe)))
prints_all_example =
    prints_all bytes_pipe bytes_pipe-IsPipes mixing
      (every_mix bytes_pipe bytes_pipe-IsPipes (alternating byte_count)
        (alternating-Mixed byte_count)).1
      (every_mix bytes_pipe bytes_pipe-IsPipes (alternating byte_count)
        (alternating-Mixed byte_count)).2

-- The second child comes first.
abbrev sent : List Turn
sent = second ∷ first ∷ []

sent_first : (Messages.play bytes_pipe sent (Messages.forked bytes_pipe)).child1 ≡ Messages.exited
unfolding Messages.play Messages.turn Messages.child Messages.forked Messages.written message_of
sent_first = refl

sent_second : (Messages.play bytes_pipe sent (Messages.forked bytes_pipe)).child2 ≡ Messages.exited
unfolding Messages.play Messages.turn Messages.child Messages.forked Messages.written message_of
sent_second = refl

messages_whole_example :
    (Messages.parent_prints bytes_pipe (Messages.play bytes_pipe sent (Messages.forked bytes_pipe))
      ≡ message_of first ++ message_of second)
    ⊎ (Messages.parent_prints bytes_pipe
          (Messages.play bytes_pipe sent (Messages.forked bytes_pipe))
        ≡ message_of second ++ message_of first)
messages_whole_example = messages_whole bytes_pipe bytes_pipe-IsPipes sent sent_first sent_second
