-- ===== src/Alloc/Fit.antt =====
-- lab2/2-3.c, lines 277 to 351: `allocate_mem` and `memory_compaction`.
pub mod Grant
pub mod Choice
pub mod Compact
pub mod Allocate
use mathlib.Core.Option
use xjtu_oslab.Base.{
  ℕ, ◌+◌, ◌-◌, Bool, true, false, not, ◌&&◌, List, [], ◌∷◌, ltb, leb, if◌then◌else◌, Option, none,
  some, ℤ, pos, negsuc,
}
use xjtu_oslab.Alloc.State.{min_slice, FreeBlock, AllocatedBlock, Mem, Result, ok, undefined}
use xjtu_oslab.Alloc.Sort.{rearrange}

-- What the loop does at a free block that is large enough, `next` being the blocks behind it: a rest
-- below `min_slice` is given away too, and the node is unlinked; otherwise the block is split.
unfoldable pub carve : AllocatedBlock → FreeBlock → List FreeBlock → AllocatedBlock × List FreeBlock
carve ab fbt next =
    if ltb (fbt.size - ab.size) min_slice
    then (record ab { start_addr = fbt.start_addr; size = fbt.size }, next)
    else (
      record ab { start_addr = fbt.start_addr },
      record { size = fbt.size - ab.size; start_addr = fbt.start_addr + ab.size } ∷ next,
    )

-- The loop of `allocate_mem`: the block filled in and the free list left, if one is large enough.
unfoldable pub find_fit : AllocatedBlock → List FreeBlock → Option (AllocatedBlock × List FreeBlock)
unfolding carve
find_fit ab [] = none
find_fit ab (fbt ∷ next) =
    if leb ab.size fbt.size
    then some (carve ab fbt next)
    else Option.map (λ (filled, rest). (filled, fbt ∷ rest)) (find_fit ab next)

-- The first loop of `memory_compaction`: the address behind the last block, and the moved blocks.
unfoldable pub compact : ℕ → List AllocatedBlock → ℕ × List AllocatedBlock
compact new_start_addr [] = (new_start_addr, [])
compact new_start_addr (now ∷ next) =
    let (last, moved) = compact (new_start_addr + now.size) next in
    (last, record now { start_addr = new_start_addr } ∷ moved)

-- The allocated blocks move to the bottom, and one free block is left above them. Blocks that do not
-- fit into the memory would make its size negative, which is outside the model.
unfoldable pub memory_compaction : Mem → Result Mem
unfolding compact
memory_compaction m =
    let (new_start_addr, moved) = compact 0 m.allocated_block_head in
    if leb new_start_addr m.mem_size
    then ok (record m {
      free_block = record { size = m.mem_size - new_start_addr; start_addr = new_start_addr } ∷ [];
      allocated_block_head = moved;
    })
    else undefined

abbrev pub is_empty : List FreeBlock → Bool
is_empty [] = true
is_empty (b ∷ bs) = false

-- The second attempt, on the compacted memory. `pre` still points at the last node of the old free
-- list, which `memory_compaction` has freed; it is NULL only if that list was empty. So unlinking
-- `fbt` behind `pre` writes to freed memory.
unfoldable pub allocate_compacted :
    (pre_is_null : Bool) → AllocatedBlock → List FreeBlock → Mem → Result (ℤ × AllocatedBlock × Mem)
allocate_compacted pre_is_null ab [] m = undefined
allocate_compacted pre_is_null ab (fbt ∷ next) m =
    if ltb fbt.size ab.size
    then ok (negsuc 0, ab, m)
    else if ltb (fbt.size - ab.size) min_slice && not pre_is_null
    then undefined
    else let (filled, rest) = carve ab fbt next in
      ok (pos 1, filled, record m { free_block = rearrange m.ma_algorithm rest })

unfoldable pub allocate_mem : AllocatedBlock → Mem → Result (ℤ × AllocatedBlock × Mem)
allocate_mem ab m = elim (find_fit ab m.free_block) [
  | some (filled, rest) ↦
      ok (pos 1, filled, record m { free_block = rearrange m.ma_algorithm rest })
  | none ↦ elim (memory_compaction m) [
    | ok c ↦ allocate_compacted (is_empty m.free_block) ab c.free_block c
    | undefined ↦ undefined
  ]
]
