-- ===== src/Alloc/Free.antt =====
-- lab2/2-3.c, lines 132 to 141, 353 to 384 and 404 to 436: `kill_process` and what it calls. A
-- pointer into the list of allocated blocks is a position in it.
pub mod Merge
pub mod Remove
pub mod Kill
use mathlib.Core.Option
use xjtu_oslab.Base.{
  ℕ, zero, suc, ◌+◌, Bool, true, false, List, [], ◌∷◌, ◌==◌, if◌then◌else◌, Option, none, some, ℤ,
  pos, negsuc, get_elem?,
}
use xjtu_oslab.Alloc.State.{FreeBlock, AllocatedBlock, Mem, Result, ok, undefined}
use xjtu_oslab.Alloc.Sort.{memory_sort, rearrange}

abbrev pub is_pid : ℤ → ℕ → Bool
is_pid (pos n) k = k == n
is_pid (negsuc n) k = false

unfoldable pub find_process : ℤ → List AllocatedBlock → Option ℕ
find_process pid [] = none
find_process pid (ab ∷ next) =
    if is_pid pid ab.pid then some 0 else Option.map suc (find_process pid next)

-- The loop of `memory_merge`, at the node `fbt`.
unfoldable pub merge_from : FreeBlock → List FreeBlock → List FreeBlock
merge_from fbt [] = fbt ∷ []
merge_from fbt (b ∷ next) = elim (fbt.start_addr + fbt.size == b.start_addr) [
  | true ↦ merge_from (record fbt { size = fbt.size + b.size }) next
  | false ↦ fbt ∷ merge_from b next
]

unfoldable pub memory_merge : List FreeBlock → List FreeBlock
unfolding merge_from
memory_merge [] = []
memory_merge (fbt ∷ next) = merge_from fbt next

unfoldable pub free_mem : AllocatedBlock → Mem → Mem
free_mem ab m =
    let fbt : FreeBlock = record { size = ab.size; start_addr = ab.start_addr } in
    record m {
      free_block = rearrange m.ma_algorithm (memory_merge (memory_sort (fbt ∷ m.free_block)));
    }

-- Unlinks the node at that position; past the end the loop would follow NULL.
unfoldable pub dispose : List AllocatedBlock → ℕ → Result (List AllocatedBlock)
dispose [] k = undefined
dispose (ab ∷ next) zero = ok next
dispose (ab ∷ next) (suc k) = elim (dispose next k) [
  | ok rest ↦ ok (ab ∷ rest)
  | undefined ↦ undefined
]

-- `kill_process` once `find_process` has returned.
unfoldable pub kill_found : ℕ → Mem → Result Mem
kill_found k m = elim (get_elem? m.allocated_block_head k) [
  | none ↦ undefined
  | some ab ↦ elim (dispose m.allocated_block_head k) [
    | undefined ↦ undefined
    | ok rest ↦ ok (record (free_mem ab m) { allocated_block_head = rest })
  ]
]

unfoldable pub kill_process : ℤ → Mem → Result Mem
kill_process pid m = elim (find_process pid m.allocated_block_head) [
  | none ↦ ok m
  | some k ↦ kill_found k m
]
