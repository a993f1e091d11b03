-- ===== src/Alloc/Examples.antt =====
-- Runs of the allocator of lab2/2-3.c.
use xjtu_oslab.Base.{ℕ, ◌≡◌, refl, arith, List, [], ◌∷◌, some, ℤ, pos, sum_by}
use xjtu_oslab.Alloc.State.{
  FreeBlock, AllocatedBlock, first_fit, worst_fit, Mem, ok, undefined, initial, init_free_block,
  free_at,
}
use xjtu_oslab.Alloc.Sort.{
  out_of_order, exchange, exchange_sort, rearrange_first_fit, rearrange_worst_fit, memory_sort,
  rearrange,
}
use xjtu_oslab.Alloc.Sort.Order.{IsSorted}
use xjtu_oslab.Alloc.Fit.{carve, find_fit, allocate_mem}
use xjtu_oslab.Alloc.Fit.Choice.{Chosen, find_fit-Chosen}
use xjtu_oslab.Alloc.Fit.Allocate.{IsWild}
use xjtu_oslab.Alloc.Free.{
  find_process, merge_from, memory_merge, free_mem, dispose, kill_found, kill_process,
}
use xjtu_oslab.Alloc.Free.Merge.{IsSeparated, memory_merge-memory_sort}
use xjtu_oslab.Alloc.Free.Kill.{Killed, kill_process-Killed}
use xjtu_oslab.Alloc.Menu.{spawn, kill, step, new_process, enter_process, link_process, and_flag}
use xjtu_oslab.Alloc.Menu.Process.{
  request, counted, NewOutcome, new_process-NewOutcome, new_process-undefined,
}
use xjtu_oslab.Alloc.Menu.Reach.{Reach, start, later, step_total, Reach-IsWell, processes_disjoint}
use xjtu_oslab.Alloc.Invariant.{IsWell}

-- After `spawn 200`, `spawn 300`.
abbrev two_processes : Mem
two_processes = record {
  free_block = record { size = 524; start_addr = 500 } ∷ [];
  allocated_block_head =
      record { pid = 2; size = 300; start_addr = 200 }
      ∷ record { pid = 1; size = 200; start_addr = 0 }
      ∷ [];
  mem_size = 1024;
  ma_algorithm = first_fit;
  pid = 2;
  flag = 1;
}

abbrev one_process : Mem
one_process = record {
  free_block = record { size = 824; start_addr = 200 } ∷ [];
  allocated_block_head = record { pid = 1; size = 200; start_addr = 0 } ∷ [];
  mem_size = 1024;
  ma_algorithm = first_fit;
  pid = 1;
  flag = 1;
}

-- After `kill 1` as well.
abbrev with_hole : Mem
with_hole = record {
  free_block = record { size = 200; start_addr = 0 } ∷ record { size = 524; start_addr = 500 } ∷ [];
  allocated_block_head = record { pid = 2; size = 300; start_addr = 200 } ∷ [];
  mem_size = 1024;
  ma_algorithm = first_fit;
  pid = 2;
  flag = 1;
}

spawned_one : step (spawn (pos 200)) initial ≡ ok one_process
unfolding step new_process allocate_mem find_fit carve rearrange rearrange_first_fit exchange_sort
    exchange enter_process link_process and_flag initial init_free_block
spawned_one = refl

spawned_two : step (spawn (pos 300)) one_process ≡ ok two_processes
unfolding step new_process allocate_mem find_fit carve rearrange rearrange_first_fit exchange_sort
    exchange enter_process link_process and_flag
spawned_two = refl

killed_one : step (kill (pos 1)) two_processes ≡ ok with_hole
unfolding step kill_process find_process kill_found dispose free_mem memory_sort memory_merge
    merge_from rearrange rearrange_first_fit exchange_sort exchange out_of_order and_flag
killed_one = refl

two_processes-Reach : Reach two_processes
two_processes-Reach =
    later (spawn (pos 300)) (later (spawn (pos 200)) start spawned_one) spawned_two

with_hole-Reach : Reach with_hole
with_hole-Reach = later (kill (pos 1)) two_processes-Reach killed_one

with_hole-IsWell : IsWell with_hole
with_hole-IsWell = Reach-IsWell with_hole-Reach

processes_disjoint_example : ◌≡◌ {A = ℕ} 1 1
processes_disjoint_example = processes_disjoint two_processes-Reach 150 1 1 refl refl refl refl

Reach-IsWell_example : IsWell with_hole
Reach-IsWell_example = Reach-IsWell with_hole-Reach

-- No hole is large enough for 600 units, and together they have 724.
roomy : ¬ IsWild (request 600 with_hole) (counted with_hole)
roomy wild = absurd (omega (arith, wild.slim))

new_process-NewOutcome_example :
    (o : ℤ × Mem) × (new_process (pos 600) with_hole ≡ ok o) × NewOutcome 600 with_hole o
new_process-NewOutcome_example =
    new_process-NewOutcome with_hole-IsWell.sound 600 (omega arith) roomy

-- 720 units fit into the 724 with less than a slice to spare.
IsWild-request : IsWild (request 720 with_hole) (counted with_hole)
IsWild-request = record {
  none_fits = (omega arith, (omega arith, tt));
  nonempty = refl;
  together = omega arith;
  slim = omega arith;
}

new_process-undefined_example : new_process (pos 720) with_hole ≡ undefined
new_process-undefined_example =
    new_process-undefined with_hole-IsWell.sound 720 (omega arith) IsWild-request

step_total_example : (m : Mem) × (step (spawn (pos 600)) with_hole ≡ ok m) × IsWell m
step_total_example = step_total with_hole (spawn (pos 600)) with_hole-IsWell (omega arith, roomy)

kill_process-Killed_example :
    (m : Mem) × (kill_process (pos 2) with_hole ≡ ok m) × Killed (pos 2) with_hole m
kill_process-Killed_example = kill_process-Killed with_hole-IsWell.sound (pos 2)

-- By falling size.
largest_first :
    rearrange worst_fit with_hole.free_block
    ≡ record { size = 524; start_addr = 500 } ∷ record { size = 200; start_addr = 0 } ∷ []
unfolding rearrange rearrange_worst_fit exchange_sort exchange out_of_order
largest_first = refl

-- Three blocks of which two touch.
abbrev scattered : List FreeBlock
scattered =
    record { size = 50; start_addr = 400 }
    ∷ record { size = 30; start_addr = 100 }
    ∷ record { size = 70; start_addr = 130 }
    ∷ []

memory_merge-memory_sort_example :
    IsSorted first_fit (memory_merge (memory_sort scattered))
    × IsSeparated (memory_merge (memory_sort scattered))
    × ((a : ℕ)
        → sum_by (free_at a) (memory_merge (memory_sort scattered)) ≡ sum_by (free_at a) scattered)
memory_merge-memory_sort_example = memory_merge-memory_sort scattered

abbrev wanted : AllocatedBlock
wanted = record { pid = 3; size = 195; start_addr = 0 }

abbrev given : AllocatedBlock
given = record { pid = 3; size = 200; start_addr = 0 }

-- The rest of 5 units is given away.
found :
    find_fit wanted with_hole.free_block
    ≡ some (given, record { size = 524; start_addr = 500 } ∷ [])
unfolding find_fit carve
found = refl

find_fit-Chosen_example :
    Chosen first_fit wanted with_hole.free_block given
      (record { size = 524; start_addr = 500 } ∷ [])
find_fit-Chosen_example =
    find_fit-Chosen first_fit wanted with_hole.free_block with_hole-IsWell.sound.sorted found
