-- ===== src/Alloc/Fit/Compact.antt =====
-- What `memory_compaction` of lab2/2-3.c does to the allocated blocks.
use xjtu_oslab.Base.{
  map, ap, ℕ, ◌+◌, ◌-◌, ◌≤◌, ◌<◌, ◌≡◌, refl, List, [], ◌∷◌, All, All-mono, sum_by, arith, le→leb,
}
use xjtu_oslab.Alloc.State.{AllocatedBlock, Mem, ok, allocated_at, allocated_size, within}
use xjtu_oslab.Alloc.Fit.{compact, memory_compaction}
use xjtu_oslab.Alloc.Invariant.{IsNewestFirst, IsSound}

-- The new addresses begin at `s` and leave no gap.
pub compact-last : (s : ℕ) (l : List AllocatedBlock) → (compact s l).0 ≡ s + sum_by allocated_size l
unfolding compact
compact-last s [] = omega arith
compact-last s (b ∷ l) = omega (arith, compact-last (s + b.size) l)

compact_total : (l : List AllocatedBlock) → (compact 0 l).0 ≡ sum_by allocated_size l
compact_total l = omega (arith, compact-last 0 l)

pub compact-sizes :
    (s : ℕ) (l : List AllocatedBlock)
    → sum_by allocated_size (compact s l).1 ≡ sum_by allocated_size l
unfolding compact
compact-sizes s [] = refl
compact-sizes s (b ∷ l) = omega (arith, compact-sizes (s + b.size) l)

within-split : (a s m n : ℕ) → within a s m + within a (s + m) n ≡ within a s (m + n)
within-split a s m n = ground arith

within-rest : (a s n : ℕ) → s ≤ n → within a s (n - s) + within a 0 s ≡ within a 0 n
within-rest a s n h = ground arith

pub compact-tiled :
    (s : ℕ) (l : List AllocatedBlock) (a : ℕ)
    → sum_by (allocated_at a) (compact s l).1 ≡ within a s (sum_by allocated_size l)
unfolding compact
compact-tiled s [] a = ground arith
compact-tiled s (b ∷ l) a =
    omega (arith, compact-tiled (s + b.size) l a, within-split a s b.size (sum_by allocated_size l))

-- Which process holds how much.
abbrev pub holding : AllocatedBlock → ℕ × ℕ
holding b = (b.pid, b.size)

pub compact-holding :
    (s : ℕ) (l : List AllocatedBlock) → map holding (compact s l).1 ≡ map holding l
unfolding compact
compact-holding s [] = refl
compact-holding s (b ∷ l) = ap (◌∷◌ (holding b)) (compact-holding (s + b.size) l)

-- Pids and sizes stay, and no block ends behind the last address.
pub compact-All :
    (P : ℕ → ℕ → Type 0) (s : ℕ) (l : List AllocatedBlock)
    → All (λ b. P b.pid b.size) l
    → All (λ b. P b.pid b.size × (b.start_addr + b.size ≤ (compact s l).0)) (compact s l).1
unfolding compact
compact-All P s [] h = tt
compact-All P s (b ∷ l) h =
    ((h.0, omega (arith, compact-last (s + b.size) l)), compact-All P (s + b.size) l h.1)

compact-IsNewestFirst :
    (s : ℕ) (l : List AllocatedBlock) → IsNewestFirst l → IsNewestFirst (compact s l).1
unfolding compact
compact-IsNewestFirst s [] h = tt
compact-IsNewestFirst s (b ∷ l) h = (
  All-mono (λ y k. k.0) (compact (s + b.size) l).1
      (compact-All (λ p _. p < b.pid) (s + b.size) l h.0),
  compact-IsNewestFirst (s + b.size) l h.1,
)

-- The state after `memory_compaction`.
abbrev pub compacted : Mem → Mem
compacted m = record m {
  free_block =
      record {
        size = m.mem_size - sum_by allocated_size m.allocated_block_head;
        start_addr = sum_by allocated_size m.allocated_block_head;
      }
      ∷ [];
  allocated_block_head = (compact 0 m.allocated_block_head).1;
}

module _ {m : Mem} (w : IsSound m) where
  open w use {tiled, sizes, processes, newest_first}

  -- Compaction of a sound state is defined: the processes fit into the memory.
  pub memory_compaction-compacted : memory_compaction m ≡ ok (compacted m)
  unfolding memory_compaction
  memory_compaction-compacted =
      let fits : sum_by allocated_size m.allocated_block_head ≤ m.mem_size = omega arith in
      rw (compact_total m.allocated_block_head, le→leb _ _ fits)

  -- Compaction keeps the invariant.
  pub compacted-IsSound : IsSound (compacted m)
  compacted-IsSound = record {
    tiled = λ a. omega (
      arith,
      compact-tiled 0 m.allocated_block_head a,
      within-rest a (sum_by allocated_size m.allocated_block_head) m.mem_size,
    );
    sizes = omega (arith, compact-sizes 0 m.allocated_block_head);
    free_within = (omega arith, tt);
    processes =
        All-mono (λ b k. omega (arith, compact_total m.allocated_block_head))
          (compact 0 m.allocated_block_head).1
          (compact-All (λ p n. (0 < p) × (p ≤ m.pid) × (0 < n)) 0 m.allocated_block_head
            (All-mono (λ b k. (k.0, k.1, k.2)) m.allocated_block_head processes));
    newest_first = compact-IsNewestFirst 0 m.allocated_block_head newest_first;
    sorted = (tt, tt);
  }
