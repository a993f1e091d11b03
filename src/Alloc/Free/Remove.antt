-- ===== src/Alloc/Free/Remove.antt =====
-- `find_process` and `dispose` of lab2/2-3.c on a list whose pids fall.
use xjtu_oslab.Base.{
  ap, sym, pos, negsuc, if◌then◌else◌, ℕ, suc, ◌+◌, ◌<◌, ◌≡◌, refl, List, [], ◌∷◌, All, sum_by,
  arith, Bool-cases, inl, inr, true, false, none, some, OnSome, OnSome-map, OnSome-mono, ℤ,
  get_elem?,
}
use xjtu_oslab.Alloc.State.{AllocatedBlock, ok}
use xjtu_oslab.Alloc.Free.{is_pid, find_process, dispose}
use xjtu_oslab.Alloc.Invariant.{IsNewestFirst}

-- The blocks of the other processes.
abbrev pub others : ℤ → List AllocatedBlock → List AllocatedBlock
others pid [] = []
others pid (b ∷ l) = if is_pid pid b.pid then others pid l else b ∷ others pid l

others-older :
    (pid : ℤ) (n : ℕ) (l : List AllocatedBlock)
    → is_pid pid n ≡ true
    → All (λ b. b.pid < n) l
    → others pid l ≡ l
others-older pid n [] e h = refl
others-older (pos k) n (b ∷ l) e h = ground (arith, others-older (pos k) n l e h.1)
others-older (negsuc k) n (b ∷ l) e h = cc

pub others-absent :
    (pid : ℤ) (l : List AllocatedBlock) → All (λ b. is_pid pid b.pid ≡ false) l → others pid l ≡ l
others-absent pid [] h = refl
others-absent pid (b ∷ l) h = rw h.0 (ap (◌∷◌ b) (others-absent pid l h.1))

-- The block at position `k` of `l`, and the list without it.
pub record Removed (pid : ℤ) (l : List AllocatedBlock) (k : ℕ) : Type 1 where
  pub block : AllocatedBlock
  pub rest : List AllocatedBlock
  pub found : get_elem? l k ≡ some block
  pub disposed : dispose l k ≡ ok rest
  pub named : is_pid pid block.pid ≡ true
  pub counts : (w : AllocatedBlock → ℕ) → sum_by w rest + w block ≡ sum_by w l
  pub keeps : (P : AllocatedBlock → Type 0) → All P l → All P rest × P block
  pub ordered : IsNewestFirst l → IsNewestFirst rest
  pub filtered : IsNewestFirst l → rest ≡ others pid l

Removed-here :
    (pid : ℤ) (b : AllocatedBlock) (l : List AllocatedBlock)
    → is_pid pid b.pid ≡ true
    → Removed pid (b ∷ l) 0
unfolding dispose
Removed-here pid b l h = record {
  block = b;
  rest = l;
  found = refl;
  disposed = refl;
  named = h;
  counts = λ w. omega arith;
  keeps = λ P p. (p.1, p.0);
  ordered = λ o. o.1;
  filtered = λ o. rw h (sym (others-older pid b.pid l h o.0));
}

Removed-later :
    (pid : ℤ) (b : AllocatedBlock) (l : List AllocatedBlock) (k : ℕ)
    → is_pid pid b.pid ≡ false
    → Removed pid l k
    → Removed pid (b ∷ l) (suc k)
unfolding dispose
Removed-later pid b l k e r = record {
  block = r.block;
  rest = b ∷ r.rest;
  found = r.found;
  disposed = rw (r.disposed, dispose);
  named = r.named;
  counts = λ w. omega (arith, r.counts w);
  keeps = λ P p. let (q, h) = r.keeps P p.1 in ((p.0, q), h);
  ordered = λ o. ((r.keeps (λ y. y.pid < b.pid) o.0).0, r.ordered o.1);
  filtered = λ o. rw e (ap (◌∷◌ b) (r.filtered o.1));
}

pub find_process-Removed :
    (pid : ℤ) (l : List AllocatedBlock) → OnSome (Removed pid l) (find_process pid l)
unfolding find_process
find_process-Removed pid [] = tt
find_process-Removed pid (b ∷ l) = elim (Bool-cases (is_pid pid b.pid)) [
  | inl e ↦ rw e (Removed-here pid b l e)
  | inr e ↦ rw e (
      OnSome-map _ suc (find_process pid l) (
        OnSome-mono (λ k r. Removed-later pid b l k e r) (find_process pid l)
          (find_process-Removed pid l)))
]

-- The process is not there exactly if no block has its pid.
pub find_process-eq-none :
    (pid : ℤ) (l : List AllocatedBlock)
    → find_process pid l ≡ none
    → All (λ b. is_pid pid b.pid ≡ false) l
unfolding find_process
find_process-eq-none pid [] h = tt
find_process-eq-none pid (b ∷ l) h = ground (arith, find_process-eq-none pid l)
