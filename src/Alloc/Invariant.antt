-- ===== src/Alloc/Invariant.antt =====
-- What holds of the globals of lab2/2-3.c in every state that the menu can reach.
use xjtu_oslab.Base.{ℕ, ◌+◌, ◌≤◌, ◌<◌, ◌≡◌, List, [], ◌∷◌, All, sum_by}
use xjtu_oslab.Alloc.State.{
  FreeBlock, AllocatedBlock, Mem, init_free_block, within, free_at, allocated_at, free_size,
  allocated_size,
}
use xjtu_oslab.Alloc.Sort.Order.{IsSorted}

-- Each address below `n` lies in exactly one block, free or allocated, and no other address in any.
abbrev pub IsTiling : ℕ → List FreeBlock → List AllocatedBlock → Type 0
IsTiling n free allocated =
    (a : ℕ) → sum_by (free_at a) free + sum_by (allocated_at a) allocated ≡ within a 0 n

abbrev pub IsWithin : ℕ → FreeBlock → Type 0
IsWithin n b = b.start_addr + b.size ≤ n

-- The list of processes runs from the newest to the oldest.
abbrev pub IsNewestFirst : List AllocatedBlock → Type 0
IsNewestFirst [] = Unit
IsNewestFirst (x ∷ xs) = All (λ y. y.pid < x.pid) xs × IsNewestFirst xs

-- A process of a state with counter `last` and memory size `n`.
abbrev pub IsProcess : ℕ → ℕ → AllocatedBlock → Type 0
IsProcess last n b = (0 < b.pid) × (b.pid ≤ last) × (0 < b.size) × (b.start_addr + b.size ≤ n)

-- All but the effect of `flag`.
pub record IsSound (m : Mem) : Type 0 where
  pub tiled : IsTiling m.mem_size m.free_block m.allocated_block_head
  pub sizes :
      sum_by free_size m.free_block + sum_by allocated_size m.allocated_block_head ≡ m.mem_size
  pub free_within : All (IsWithin m.mem_size) m.free_block
  pub processes : All (IsProcess m.pid m.mem_size) m.allocated_block_head
  pub newest_first : IsNewestFirst m.allocated_block_head
  pub sorted : IsSorted m.ma_algorithm m.free_block

pub record IsWell (m : Mem) : Type 0 where
  pub sound : IsSound m
  pub open sound use *
  pub untouched :
      m.flag ≡ 0 → (m.free_block ≡ init_free_block m.mem_size) × (m.allocated_block_head ≡ [])
