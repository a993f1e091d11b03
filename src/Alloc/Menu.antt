-- ===== src/Alloc/Menu.antt =====
-- lab2/2-3.c, lines 70 to 105, 143 to 170, 243 to 275 and 463 to 476: the operations of the menu and
-- the loop of `main`. What `scanf` reads is part of the command, and every `malloc` succeeds.
pub mod Process
pub mod Reach
use xjtu_oslab.Base.{ℕ, zero, suc, ◌+◌, List, [], ◌∷◌, ltb, ◌==◌, if◌then◌else◌, ℤ, pos, negsuc}
use xjtu_oslab.Alloc.State.{
  FreeBlock, AllocatedBlock, Mem, Result, ok, undefined, Algorithm, first_fit, best_fit, worst_fit,
}
use xjtu_oslab.Alloc.Sort.{rearrange}
use xjtu_oslab.Alloc.Fit.{allocate_mem}
use xjtu_oslab.Alloc.Free.{kill_process}

-- Lines 152 to 155 of `set_mem_size`, for a positive size.
unfoldable pub resize : ℕ → List FreeBlock → Mem → Result (ℕ × Mem)
resize size [] m = undefined
resize size (b ∷ next) m =
    ok (1, record m { mem_size = size; free_block = record b { size = size } ∷ next; flag = 1 })

unfoldable pub set_mem_size : ℤ → Mem → Result (ℕ × Mem)
unfolding resize
set_mem_size (pos size) m =
    if m.flag == 0
    then (if ltb 0 size then resize size m.free_block m else ok (1, record m { flag = 1 }))
    else ok (0, m)
set_mem_size (negsuc size) m = if m.flag == 0 then ok (1, record m { flag = 1 }) else ok (0, m)

-- The algorithm of a number, and the present one for a number out of range.
unfoldable pub algorithm_of : ℤ → Algorithm → Algorithm
algorithm_of (pos (suc zero)) old = first_fit
algorithm_of (pos (suc (suc zero))) old = best_fit
algorithm_of (pos (suc (suc (suc zero)))) old = worst_fit
algorithm_of _ old = old

unfoldable pub set_algorithm : ℤ → Mem → Mem
unfolding algorithm_of
set_algorithm n m =
    let alg = algorithm_of n m.ma_algorithm in
    record m { ma_algorithm = alg; free_block = rearrange alg m.free_block }

-- The new block goes in front of the list, whether that is empty (1) or not (2).
unfoldable pub link_process : AllocatedBlock → List AllocatedBlock → Mem → ℤ × Mem
link_process ab [] m = (pos 1, record m { allocated_block_head = ab ∷ [] })
link_process ab (head ∷ next) m = (pos 2, record m { allocated_block_head = ab ∷ head ∷ next })

-- `new_process` once `allocate_mem` has returned.
unfoldable pub enter_process : ℤ × AllocatedBlock × Mem → Result (ℤ × Mem)
unfolding link_process
enter_process (pos _, ab, m) = ok (link_process ab m.allocated_block_head m)
enter_process (negsuc _, ab, m) = ok (negsuc 0, m)

-- For a size that is not positive `ab->size` is read uninitialised.
unfoldable pub new_process : ℤ → Mem → Result (ℤ × Mem)
new_process (negsuc size) m = undefined
new_process (pos size) m =
    if ltb 0 size
    then elim (allocate_mem (record { pid = m.pid + 1; size = size; start_addr = 0 })
        (record m { pid = m.pid + 1 })) [ ok r ↦ enter_process r | undefined ↦ undefined ]
    else undefined

unfoldable pub do_exit : Mem → Mem
do_exit m = record m { allocated_block_head = []; free_block = [] }

-- A choice of the menu, with the number that the operation reads.
pub data Command : Type 0 where
  set_size : ℤ → Command
  select : ℤ → Command
  spawn : ℤ → Command
  kill : ℤ → Command
  display : Command
  other : Command

unfoldable pub and_flag : Mem → Mem
and_flag m = record m { flag = 1 }

-- One round of the loop of `main`, for the choices that do not leave it.
unfoldable pub step : Command → Mem → Result Mem
step (set_size n) m = elim (set_mem_size n m) [ ok (_, m') ↦ ok m' | undefined ↦ undefined ]
step (select n) m = ok (and_flag (set_algorithm n m))
step (spawn n) m = elim (new_process n m) [ ok (_, m') ↦ ok (and_flag m') | undefined ↦ undefined ]
step (kill n) m = elim (kill_process n m) [ ok m' ↦ ok (and_flag m') | undefined ↦ undefined ]
step display m = ok (and_flag m)
step other m = ok m

-- The rounds before the choice 0, and `do_exit`.
unfoldable pub session : List Command → Mem → Result Mem
session [] m = ok (do_exit m)
session (c ∷ cs) m = elim (step c m) [ ok m' ↦ session cs m' | undefined ↦ undefined ]
