-- ===== src/Alloc/Fit/Grant.antt =====
-- What `allocate_mem` of lab2/2-3.c takes from the free list, and which block it chooses.
use xjtu_oslab.Base.{
  OnSome, OnSome-map, OnSome-mono, ℕ, ◌+◌, ◌≤◌, ◌<◌, ◌≡◌, List, [], ◌∷◌, All, sum_by, Bool-cases,
  inl, inr, arith, leb,
}
use xjtu_oslab.Alloc.State.{min_slice, FreeBlock, AllocatedBlock, free_at, allocated_at, free_size}
use xjtu_oslab.Alloc.Fit.{carve, find_fit}
use xjtu_oslab.Alloc.Invariant.{IsWithin}

-- The block `filled` was cut for the request `ab` out of the free list `l`, which leaves `rest`.
pub record Granted (ab : AllocatedBlock) (l : List FreeBlock) (filled : AllocatedBlock)
    (rest : List FreeBlock) : Type 0 where
  pub same_pid : filled.pid ≡ ab.pid
  pub enough : ab.size ≤ filled.size
  pub slice : filled.size < ab.size + min_slice
  pub cut : (a : ℕ) → sum_by (free_at a) rest + allocated_at a filled ≡ sum_by (free_at a) l
  pub cut_size : sum_by free_size rest + filled.size ≡ sum_by free_size l
  pub ranges :
      (n : ℕ) → All (IsWithin n) l → All (IsWithin n) rest × (filled.start_addr + filled.size ≤ n)

carve-cut :
    (ab : AllocatedBlock) (fbt : FreeBlock) (next : List FreeBlock)
    → ab.size ≤ fbt.size
    → (a : ℕ)
    → sum_by (free_at a) (carve ab fbt next).1 + allocated_at a (carve ab fbt next).0
      ≡ free_at a fbt + sum_by (free_at a) next
unfolding carve
carve-cut ab fbt next h a = ground arith

carve-ranges :
    (ab : AllocatedBlock) (fbt : FreeBlock) (next : List FreeBlock)
    → ab.size ≤ fbt.size
    → (n : ℕ) → All (IsWithin n) (fbt ∷ next)
    → All (IsWithin n) (carve ab fbt next).1
      × ((carve ab fbt next).0.start_addr + (carve ab fbt next).0.size ≤ n)
unfolding carve
carve-ranges ab fbt next h n w = ground arith

pub carve-Granted :
    (ab : AllocatedBlock) (fbt : FreeBlock) (next : List FreeBlock)
    → ab.size ≤ fbt.size
    → Granted ab (fbt ∷ next) (carve ab fbt next).0 (carve ab fbt next).1
unfolding carve
carve-Granted ab fbt next h = record {
  same_pid = ground arith;
  enough = ground arith;
  slice = ground arith;
  cut = carve-cut ab fbt next h;
  cut_size = ground arith;
  ranges = carve-ranges ab fbt next h;
}

Granted-skip :
    {ab : AllocatedBlock} {l : List FreeBlock} {filled : AllocatedBlock} {rest : List FreeBlock}
    (fbt : FreeBlock)
    → Granted ab l filled rest
    → Granted ab (fbt ∷ l) filled (fbt ∷ rest)
Granted-skip fbt g = record {
  same_pid = g.same_pid;
  enough = g.enough;
  slice = g.slice;
  cut = λ a. omega (arith, g.cut a);
  cut_size = omega arith;
  ranges = λ n w. let (r, f) = g.ranges n w.1 in ((w.0, r), f);
}

pub find_fit-Granted :
    (ab : AllocatedBlock) (l : List FreeBlock) → OnSome (λ r. Granted ab l r.0 r.1) (find_fit ab l)
unfolding find_fit
find_fit-Granted ab [] = tt
find_fit-Granted ab (fbt ∷ next) = elim (Bool-cases (leb ab.size fbt.size)) [
  | inl fits ↦ rw fits (carve-Granted ab fbt next (ground arith))
  | inr small ↦ rw small (
      OnSome-map _ _ (find_fit ab next)
        (OnSome-mono (λ r g. Granted-skip fbt g) (find_fit ab next) (find_fit-Granted ab next)))
]
