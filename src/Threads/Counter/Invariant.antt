-- ===== src/Threads/Counter/Invariant.antt =====
-- What holds of the threads of lab1-2/1-2_signal.c under every schedule.
use xjtu_oslab.Base.{
  ℕ, ◌+◌, ◌%◌, ◌≤◌, ◌<◌, ◌≡◌, refl, List, [], ◌∷◌, Option, none, some, Bool, arith, OnSome,
  OnSome_at, false, true, ◌&&◌,
}
use xjtu_oslab.Threads.{word_size, increment, decrement, loop_count, Turn, first, second}
use xjtu_oslab.Threads.Semaphore.{Semaphore, IsSemaphore}
use xjtu_oslab.Threads.Counter.{
  Pc, head, waiting, entered, loaded, stored, returned, Globals, wait_signal, thread_access, add,
  sub, Process, start_with, main_start, turn, play,
}

-- Between the return of `sem_wait` and `sem_post`: 1 or 0.
abbrev pub holds : Pc → ℕ
holds (entered _) = 1
holds (loaded _ _) = 1
holds (stored _) = 1
holds _ = 0

-- The rounds whose value the thread has written.
abbrev pub written : Pc → ℕ
written (head i) = i
written (waiting i) = i
written (entered i) = i
written (loaded i _) = i
written (stored i) = i + 1
written returned = loop_count

-- The locals of a thread: the round is in range, and a value that was read is still that of `shared`.
abbrev pub IsFresh : ℕ → Pc → Type 0
IsFresh shared (head i) = i ≤ loop_count
IsFresh shared (waiting i) = i < loop_count
IsFresh shared (entered i) = i < loop_count
IsFresh shared (loaded i v) = (i < loop_count) × (v ≡ shared)
IsFresh shared (stored i) = i < loop_count
IsFresh shared returned = Unit

-- `n` is the value of the semaphore, `p` stands in `add` and `q` in `sub`.
pub record Inv (n shared : ℕ) (p q : Pc) : Type 0 where
  pub one_holder : n + holds p + holds q ≡ 1
  pub counted : (shared + written q) % word_size ≡ written p
  pub fits : shared < word_size
  pub fresh_add : IsFresh shared p
  pub fresh_sub : IsFresh shared q

module _ (S : Semaphore) (laws : IsSemaphore S) where
  abbrev pub GlobalsInv : Globals S → Pc → Pc → Type 0
  GlobalsInv m p q = Inv (S.value m.signal) m.shared p q

  wait_add :
      (m : Globals S) (i : ℕ) (q : Pc) (o : Option S.Sem)
      → S.sem_wait m.signal ≡ o
      → GlobalsInv m (waiting i) q
      → GlobalsInv (wait_signal S m i o).0 (wait_signal S m i o).1 q
  unfolding wait_signal
  wait_add m i q none e v = v
  wait_add m i q (some s) e v = record {
    one_holder = omega (arith, laws.value-sem_wait m.signal s e);
    counted = v.counted;
    fits = v.fits;
    fresh_add = v.fresh_add;
    fresh_sub = v.fresh_sub;
  }

  wait_sub :
      (m : Globals S) (p : Pc) (i : ℕ) (o : Option S.Sem)
      → S.sem_wait m.signal ≡ o
      → GlobalsInv m p (waiting i)
      → GlobalsInv (wait_signal S m i o).0 p (wait_signal S m i o).1
  unfolding wait_signal
  wait_sub m p i none e v = v
  wait_sub m p i (some s) e v = record {
    one_holder = omega (arith, laws.value-sem_wait m.signal s e);
    counted = v.counted;
    fits = v.fits;
    fresh_add = v.fresh_add;
    fresh_sub = v.fresh_sub;
  }

  add-Inv : (m : Globals S) (p q : Pc) → GlobalsInv m p q → GlobalsInv (add S m p).0 (add S m p).1 q
  unfolding add thread_access increment
  add-Inv m (head i) q v = ground arith
  add-Inv m (waiting i) q v = wait_add m i q (S.sem_wait m.signal) refl v
  add-Inv m (entered i) q v = ground arith
  add-Inv m (loaded i x) q v = ground arith
  add-Inv m (stored i) q v = ground (arith, laws.value-sem_post m.signal)
  add-Inv m returned q v = v

  sub-Inv : (m : Globals S) (p q : Pc) → GlobalsInv m p q → GlobalsInv (sub S m q).0 p (sub S m q).1
  unfolding sub thread_access decrement
  sub-Inv m p (head i) v = ground arith
  sub-Inv m p (waiting i) v = wait_sub m p i (S.sem_wait m.signal) refl v
  sub-Inv m p (entered i) v = ground arith
  sub-Inv m p (loaded i x) v = ground arith
  sub-Inv m p (stored i) v = ground (arith, laws.value-sem_post m.signal)
  sub-Inv m p returned v = v

  abbrev pub ProcessInv : Process S → Type 0
  ProcessInv s = GlobalsInv s.globals s.thread1 s.thread2

  pub turn-Inv : (t : Turn) (s : Process S) → ProcessInv s → ProcessInv (turn S t s)
  unfolding turn
  turn-Inv first s v = add-Inv s.globals s.thread1 s.thread2 v
  turn-Inv second s v = sub-Inv s.globals s.thread1 s.thread2 v

  pub play-Inv : (ts : List Turn) (s : Process S) → ProcessInv s → ProcessInv (play S ts s)
  unfolding play
  play-Inv [] s v = v
  play-Inv (t ∷ ts) s v = play-Inv ts (turn S t s) (turn-Inv t s v)

  start_with-Inv :
      (o : Option S.Sem) (created : Bool)
      → S.sem_init 1 ≡ o
      → OnSome ProcessInv (start_with S o created)
  unfolding start_with
  start_with-Inv none created e = tt
  start_with-Inv (some m) false e = tt
  start_with-Inv (some m) true e = omega (arith, laws.value-sem_init 1 m e)

  main_start-Inv : (c d : Bool) → OnSome ProcessInv (main_start S c d)
  unfolding main_start
  main_start-Inv c d = start_with-Inv (S.sem_init 1) (c && d) refl

  -- The invariant after every schedule.
  pub started-Inv :
      (c d : Bool) (s : Process S) (ts : List Turn)
      → main_start S c d ≡ some s
      → ProcessInv (play S ts s)
  started-Inv c d s ts h =
      play-Inv ts s (OnSome_at ProcessInv (main_start S c d) (main_start-Inv c d) h)
