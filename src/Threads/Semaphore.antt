-- ===== src/Threads/Semaphore.antt =====
-- The POSIX semaphore of lab1-2, which the sources only call.
use xjtu_oslab.Base.{ℕ, ◌+◌, ◌≡◌, Option, none, some}

-- `sem_wait` is `none` while the caller has to wait.
pub record Semaphore : Type 1 where
  pub Sem : Type 0
  pub value : Sem → ℕ
  pub sem_init : ℕ → Option Sem
  pub sem_wait : Sem → Option Sem
  pub sem_post : Sem → Sem

-- What the manual says of them.
pub record IsSemaphore (S : Semaphore) : Type 0 where
  pub value-sem_init : (n : ℕ) (s : S.Sem) → S.sem_init n ≡ some s → S.value s ≡ n
  pub value-sem_wait : (s t : S.Sem) → S.sem_wait s ≡ some t → S.value s ≡ S.value t + 1
  pub sem_wait-blocked : (s : S.Sem) → S.sem_wait s ≡ none → S.value s ≡ 0
  pub value-sem_post : (s : S.Sem) → S.value (S.sem_post s) ≡ S.value s + 1
