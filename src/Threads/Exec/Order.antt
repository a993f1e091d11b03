-- ===== src/Threads/Exec/Order.antt =====
-- What the semaphore of lab1-2/1-2_sys.c does not order.
use xjtu_oslab.Base.{
  ℕ, ◌+◌, ◌≤◌, ◌≡◌, refl, List, [], ◌∷◌, Option, none, some, Bool, true, false, ◌&&◌, OnSome,
  OnSome_at, arith,
}
use xjtu_oslab.Threads.{Turn, first, second}
use xjtu_oslab.Threads.Semaphore.{Semaphore, IsSemaphore}
use xjtu_oslab.Threads.Exec.{
  SystemPc, calling, posting, system_returned, ExecPc, waiting, executing, replaced, exec_returned,
  Process, start_with, main_start, system_func, wait_signal, exec_func, live_turn, turn, play,
}

-- The semaphore is positive until `exec_func` has passed it.
abbrev IsOpen : ℕ → ExecPc → Type 0
IsOpen n waiting = 1 ≤ n
IsOpen n _ = Unit

module _ (S : Semaphore) (laws : IsSemaphore S) where
  abbrev ProcessInv : Process S → Type 0
  ProcessInv s = IsOpen (S.value s.signal) s.exec_thread

  more-IsOpen : (q : ExecPc) (n : ℕ) → IsOpen n q → IsOpen (n + 1) q
  more-IsOpen waiting n v = omega arith
  more-IsOpen executing n v = tt
  more-IsOpen replaced n v = tt
  more-IsOpen exec_returned n v = tt

  post-IsOpen :
      (s : Process S) → ProcessInv s → IsOpen (S.value (S.sem_post s.signal)) s.exec_thread
  post-IsOpen s v =
      rw (laws.value-sem_post s.signal) (more-IsOpen s.exec_thread (S.value s.signal) v)

  system_func-Inv : (s : Process S) (p : SystemPc) → ProcessInv s → ProcessInv (system_func S s p)
  unfolding system_func
  system_func-Inv s calling v = v
  system_func-Inv s posting v = post-IsOpen s v
  system_func-Inv s system_returned v = v

  wait_signal-Inv :
      (s : Process S) (o : Option S.Sem) → ProcessInv s → ProcessInv (wait_signal S s o)
  unfolding wait_signal
  wait_signal-Inv s none v = v
  wait_signal-Inv s (some t) v = tt

  exec_func-Inv : (s : Process S) (q : ExecPc) → ProcessInv s → ProcessInv (exec_func S s q)
  unfolding exec_func
  exec_func-Inv s waiting v = wait_signal-Inv s (S.sem_wait s.signal) v
  exec_func-Inv s executing v = ground arith
  exec_func-Inv s replaced v = v
  exec_func-Inv s exec_returned v = v

  live_turn-Inv :
      (t : Turn) (s : Process S) (q : ExecPc) → ProcessInv s → ProcessInv (live_turn S t s q)
  unfolding live_turn
  live_turn-Inv first s replaced v = v
  live_turn-Inv second s replaced v = v
  live_turn-Inv first s waiting v = system_func-Inv s s.system_thread v
  live_turn-Inv first s executing v = system_func-Inv s s.system_thread v
  live_turn-Inv first s exec_returned v = system_func-Inv s s.system_thread v
  live_turn-Inv second s waiting v = exec_func-Inv s waiting v
  live_turn-Inv second s executing v = exec_func-Inv s executing v
  live_turn-Inv second s exec_returned v = exec_func-Inv s exec_returned v

  play-Inv : (ts : List Turn) (s : Process S) → ProcessInv s → ProcessInv (play S ts s)
  unfolding play turn
  play-Inv [] s v = v
  play-Inv (t ∷ ts) s v = play-Inv ts (turn S t s) (live_turn-Inv t s s.exec_thread v)

  start_with-Inv :
      (ok : Bool) (o : Option S.Sem) (created : Bool)
      → S.sem_init 1 ≡ o
      → OnSome ProcessInv (start_with S ok o created)
  unfolding start_with
  start_with-Inv ok none created e = tt
  start_with-Inv ok (some m) false e = tt
  start_with-Inv ok (some m) true e = omega (arith, laws.value-sem_init 1 m e)

  main_start-Inv : (ok c d : Bool) → OnSome ProcessInv (main_start S ok c d)
  unfolding main_start
  main_start-Inv ok c d = start_with-Inv ok (S.sem_init 1) (c && d) refl

  wait_passes :
      (s : Process S) (o : Option S.Sem)
      → S.sem_wait s.signal ≡ o
      → 1 ≤ S.value s.signal
      → (wait_signal S s o).exec_thread ≡ executing
        × (wait_signal S s o).system_thread ≡ s.system_thread
  unfolding wait_signal
  wait_passes s none e h = absurd (omega (arith, laws.sem_wait-blocked s.signal e))
  wait_passes s (some t) e h = (refl, refl)

  turn_waiting :
      (s : Process S)
      → s.exec_thread ≡ waiting
      → turn S second s ≡ wait_signal S s (S.sem_wait s.signal)
  unfolding turn live_turn exec_func
  turn_waiting s e = rw e refl

  -- With a semaphore that keeps its laws, where both threads are created, after any schedule, if
  -- `exec_func` stands before `sem_wait`, its next move passes it, wherever `system_func` stands: the
  -- semaphore never makes `execl` wait for `system`.
  pub exec_never_waits :
      (ok c d : Bool) (s : Process S) (ts : List Turn)
      → main_start S ok c d ≡ some s
      → (play S ts s).exec_thread ≡ waiting
      → (turn S second (play S ts s)).exec_thread ≡ executing
        × (turn S second (play S ts s)).system_thread ≡ (play S ts s).system_thread
  exec_never_waits ok c d s ts h e =
      let available : ProcessInv (play S ts s) =
        play-Inv ts s (OnSome_at ProcessInv (main_start S ok c d) (main_start-Inv ok c d) h) in
      rw (turn_waiting (play S ts s) e)
        (wait_passes (play S ts s) (S.sem_wait (play S ts s).signal) refl (rw e at available))
