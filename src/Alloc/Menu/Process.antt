-- ===== src/Alloc/Menu/Process.antt =====
-- `new_process` and `set_algorithm` of lab2/2-3.c on a sound state.
use xjtu_oslab.Base.{
  ap, ℕ, ◌+◌, ◌≤◌, ◌<◌, ◌≡◌, refl, List, [], ◌∷◌, All-mono, sum_by, sum_by-perm, arith, lt→ltb, ℤ,
  pos, negsuc, map, ◌⊎◌, inl, inr,
}
use xjtu_oslab.Alloc.State.{min_slice, AllocatedBlock, Mem, ok, undefined, free_at, free_size}
use xjtu_oslab.Alloc.Sort.Order.{rearrange_lem, rearrange-All}
use xjtu_oslab.Alloc.Fit.Compact.{holding}
use xjtu_oslab.Alloc.Fit.Allocate.{
  linked, IsRequest, Outcome, IsWild, allocate_mem-Outcome, allocate_mem-undefined,
}
use xjtu_oslab.Alloc.Menu.{algorithm_of, set_algorithm, link_process, enter_process, new_process}
use xjtu_oslab.Alloc.Invariant.{IsSound, IsWithin}

-- What `new_process` hands to `allocate_mem`, and the state at that call.
abbrev pub request : ℕ → Mem → AllocatedBlock
request size m = record { pid = m.pid + 1; size = size; start_addr = 0 }

abbrev pub counted : Mem → Mem
counted m = record m { pid = m.pid + 1 }

pub counted-IsSound : {m : Mem} → IsSound m → IsSound (counted m)
counted-IsSound {m} w = record {
  tiled = w.tiled;
  sizes = w.sizes;
  free_within = w.free_within;
  processes = All-mono (λ b k. omega arith) m.allocated_block_head w.processes;
  newest_first = w.newest_first;
  sorted = w.sorted;
}

request-IsRequest :
    {m : Mem} (size : ℕ) → IsSound m → 0 < size → IsRequest (request size m) (counted m)
request-IsRequest {m} size w h = record {
  positive = h;
  current = refl;
  pid_positive = omega arith;
  newer = All-mono (λ b k. omega arith) m.allocated_block_head w.processes;
}

-- The new process stands in front, with a block of at least `size` and less than `min_slice` more.
pub record Entered (size : ℕ) (m m' : Mem) : Type 0 where
  pub sound : IsSound m'
  pub block : AllocatedBlock
  pub behind : List AllocatedBlock
  pub in_front : m'.allocated_block_head ≡ block ∷ behind
  pub named : block.pid ≡ m.pid + 1
  pub enough : size ≤ block.size
  pub slice : block.size < size + min_slice
  pub others : map holding behind ≡ map holding m.allocated_block_head

-- The process is refused: all the free memory is smaller than `size`.
pub record Refused (size : ℕ) (m m' : Mem) : Type 0 where
  pub sound : IsSound m'
  pub too_small : sum_by free_size m.free_block < size
  pub others : map holding m'.allocated_block_head ≡ map holding m.allocated_block_head

-- 1 or 2 with a new process, or -1 without one.
abbrev pub NewOutcome : ℕ → Mem → ℤ × Mem → Type 0
NewOutcome size m (pos c, m') = ((c ≡ 1) ⊎ (c ≡ 2)) × Entered size m m'
NewOutcome size m (negsuc c, m') = (c ≡ 0) × Refused size m m'

link_process_lem :
    (ab : AllocatedBlock) (l : List AllocatedBlock) (m : Mem)
    → (c : ℕ) × (link_process ab l m ≡ (pos c, record m { allocated_block_head = ab ∷ l }))
      × ((c ≡ 1) ⊎ (c ≡ 2))
unfolding link_process
link_process_lem ab [] m = (1, refl, inl refl)
link_process_lem ab (b ∷ l) m = (2, refl, inr refl)

enter_process-NewOutcome :
    (size : ℕ) (m : Mem) (r : ℤ × AllocatedBlock × Mem)
    → Outcome (request size m) (counted m) r
    → (o : ℤ × Mem) × (enter_process r ≡ ok o) × NewOutcome size m o
unfolding enter_process
enter_process-NewOutcome size m (pos _, ab, m') (_, s) =
    let (c, eq, which) = link_process_lem ab m'.allocated_block_head m' in
    (
      (pos c, linked ab m'),
      ap ok eq,
      (
        which,
        record {
          sound = s.sound;
          block = ab;
          behind = m'.allocated_block_head;
          in_front = refl;
          named = s.same_pid;
          enough = s.enough;
          slice = s.slice;
          others = s.others;
        },
      ),
    )
enter_process-NewOutcome size m (negsuc _, ab, m') (_, f) = (
  (negsuc 0, m'),
  refl,
  (refl, record { sound = f.sound; too_small = f.too_small; others = f.others }),
)

module _ {m : Mem} (w : IsSound m) (size : ℕ) where
  -- On a sound state, for a positive size, unless `IsWild` holds of the request, `new_process` is
  -- defined. It returns 1 or 2 with the new process in front, whose block has at least the requested
  -- size and less than `min_slice` more, or -1 if all the free memory is smaller than the request.
  -- Either way the state is sound again and the other processes keep their pids and sizes.
  pub new_process-NewOutcome :
      0 < size
      → ¬ IsWild (request size m) (counted m)
      → (o : ℤ × Mem) × (new_process (pos size) m ≡ ok o) × NewOutcome size m o
  unfolding new_process
  new_process-NewOutcome h tame =
      let (r, eq, out) =
        allocate_mem-Outcome (counted-IsSound w) (request-IsRequest size w h) tame in
      let (o, eq', good) = enter_process-NewOutcome size m r out in
      (o, rw (lt→ltb 0 size h, eq, new_process) eq', good)

  -- On a sound state, where no free block fits a positive request but all of them together do with
  -- less than `min_slice` to spare, and the free list is not empty, `new_process` runs into undefined
  -- behaviour.
  pub new_process-undefined :
      0 < size → IsWild (request size m) (counted m) → new_process (pos size) m ≡ undefined
  unfolding new_process
  new_process-undefined h wild =
      rw (lt→ltb 0 size h, allocate_mem-undefined (counted-IsSound w) wild, new_process)

-- The chosen algorithm is in force at once: the free blocks are those of before, in its order.
pub set_algorithm-IsSound : {m : Mem} (n : ℤ) → IsSound m → IsSound (set_algorithm n m)
unfolding set_algorithm
set_algorithm-IsSound {m} n w =
    let alg = algorithm_of n m.ma_algorithm in
    let (same, sorted) = rearrange_lem alg m.free_block in
    record {
      tiled = λ a. omega (arith, sum_by-perm (free_at a) same, w.tiled a);
      sizes = omega (arith, sum_by-perm free_size same, w.sizes);
      free_within = rearrange-All (IsWithin m.mem_size) alg m.free_block w.free_within;
      processes = w.processes;
      newest_first = w.newest_first;
      sorted = sorted;
    }
