-- ===== src/Alloc/Free/Kill.antt =====
-- `kill_process` of lab2/2-3.c on a sound state.
use xjtu_oslab.Base.{
  ℕ, ◌+◌, ◌≤◌, ◌≡◌, refl, List, ◌∷◌, All, sum_by, sum_by-perm, arith, inl, inr, OnSome_at,
  Option-cases, ℤ, ◌∙◌, Perm, sym,
}
use xjtu_oslab.Alloc.State.{
  FreeBlock, AllocatedBlock, Mem, ok, free_at, free_size, first_fit, allocated_at, allocated_size,
}
use xjtu_oslab.Alloc.Sort.{memory_sort, rearrange}
use xjtu_oslab.Alloc.Sort.Order.{rearrange_lem, rearrange-All, memory_sort-rearrange}
use xjtu_oslab.Alloc.Free.{memory_merge, free_mem, find_process, kill_found, kill_process}
use xjtu_oslab.Alloc.Free.Merge.{memory_merge-cover, memory_merge-size, memory_merge-IsWithin}
use xjtu_oslab.Alloc.Free.Remove.{
  Removed, find_process-Removed, find_process-eq-none, others, others-absent,
}
use xjtu_oslab.Alloc.Invariant.{IsSound, IsWithin, IsProcess}

abbrev as_free : AllocatedBlock → FreeBlock
as_free ab = record { size = ab.size; start_addr = ab.start_addr }

abbrev merged : AllocatedBlock → Mem → List FreeBlock
merged ab m = memory_merge (memory_sort (as_free ab ∷ m.free_block))

module _ (ab : AllocatedBlock) (m : Mem) where
  sorted_perm : Perm (memory_sort (as_free ab ∷ m.free_block)) (as_free ab ∷ m.free_block)
  sorted_perm = rw (memory_sort-rearrange (as_free ab ∷ m.free_block)) (rearrange_lem first_fit _).0

  final_perm : Perm (rearrange m.ma_algorithm (merged ab m)) (merged ab m)
  final_perm = (rearrange_lem m.ma_algorithm (merged ab m)).0

  -- The free list after `free_mem` covers the block and what it covered before.
  free_mem-cover :
      (a : ℕ)
      → sum_by (free_at a) (free_mem ab m).free_block
        ≡ allocated_at a ab + sum_by (free_at a) m.free_block
  unfolding free_mem
  free_mem-cover a =
      sum_by-perm (free_at a) final_perm
      ∙ memory_merge-cover a (memory_sort (as_free ab ∷ m.free_block))
      ∙ sum_by-perm (free_at a) sorted_perm

  free_mem-size :
      sum_by free_size (free_mem ab m).free_block ≡ ab.size + sum_by free_size m.free_block
  unfolding free_mem
  free_mem-size =
      sum_by-perm free_size final_perm
      ∙ memory_merge-size (memory_sort (as_free ab ∷ m.free_block))
      ∙ sum_by-perm free_size sorted_perm

  free_mem-IsWithin :
      (n : ℕ)
      → All (IsWithin n) m.free_block
      → ab.start_addr + ab.size ≤ n
      → All (IsWithin n) (free_mem ab m).free_block
  unfolding free_mem
  free_mem-IsWithin n h k = rearrange-All (IsWithin n) m.ma_algorithm (merged ab m) (
      memory_merge-IsWithin n (memory_sort (as_free ab ∷ m.free_block)) (
        rw (memory_sort-rearrange (as_free ab ∷ m.free_block))
          (rearrange-All (IsWithin n) first_fit (as_free ab ∷ m.free_block) (k, h))))

-- The state without the process: sound, its block free again, the other processes as they were.
pub record Killed (pid : ℤ) (m m' : Mem) : Type 0 where
  pub sound : IsSound m'
  pub remaining : m'.allocated_block_head ≡ others pid m.allocated_block_head
  pub counter : m'.pid ≡ m.pid

module _ {m : Mem} (w : IsSound m) (pid : ℤ) where
  kill_found-Killed :
      (k : ℕ)
      → Removed pid m.allocated_block_head k
      → (m' : Mem) × (kill_found k m ≡ ok m') × Killed pid m m'
  unfolding kill_found free_mem
  kill_found-Killed k r = (
    record (free_mem r.block m) { allocated_block_head = r.rest },
    rw (r.found, r.disposed, kill_found),
    record {
      sound = record {
        tiled =
            λ a. omega (arith, free_mem-cover r.block m a, r.counts (allocated_at a), w.tiled a);
        sizes = omega (arith, free_mem-size r.block m, r.counts allocated_size, w.sizes);
        free_within = free_mem-IsWithin r.block m m.mem_size w.free_within (block_is_process.1).3;
        processes = block_is_process.0;
        newest_first = r.ordered w.newest_first;
        sorted = (rearrange_lem m.ma_algorithm (merged r.block m)).1;
      };
      remaining = r.filtered w.newest_first;
      counter = refl;
    },
  )
    where
      block_is_process :
          All (IsProcess m.pid m.mem_size) r.rest × IsProcess m.pid m.mem_size r.block
      block_is_process = r.keeps (IsProcess m.pid m.mem_size) w.processes

  -- On a sound state `kill_process` is defined and leaves a sound state, in which the processes are
  -- those of another pid, unchanged and in their order.
  pub kill_process-Killed : (m' : Mem) × (kill_process pid m ≡ ok m') × Killed pid m m'
  unfolding kill_process
  kill_process-Killed = elim (Option-cases (find_process pid m.allocated_block_head)) [
    | inl e ↦ (
      m,
      rw (e, kill_process),
      record {
        sound = w;
        remaining = sym (
            others-absent pid m.allocated_block_head
              (find_process-eq-none pid m.allocated_block_head e));
        counter = refl;
      },
    )
    | inr (k, e) ↦
        let (m', eq, good) =
          kill_found-Killed k (OnSome_at _ _ (find_process-Removed pid m.allocated_block_head) e) in
        (m', rw (e, kill_process) eq, good)
  ]
