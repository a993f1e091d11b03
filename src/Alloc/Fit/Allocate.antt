-- ===== src/Alloc/Fit/Allocate.antt =====
-- `allocate_mem` of lab2/2-3.c on a sound state: what it grants, when it fails, and when it steps
-- outside C.
use native.Mathlib.Decide.{dec_le, dec_lt}
use xjtu_oslab.Base.{
  map, false, ◌≡◌, All-mono, ℕ, ◌+◌, ◌-◌, ◌≤◌, ◌<◌, refl, List, [], ◌∷◌, All, sum_by, arith, ltb, ℤ,
  pos, negsuc, Bool, Bool-cases, Option-cases, inl, inr, Perm, sum_by-perm, OnSome_at, not, ◌&&◌,
}
use xjtu_oslab.Alloc.State.{
  ok, undefined, allocated_size, min_slice, FreeBlock, AllocatedBlock, Mem, free_size, free_at,
}
use xjtu_oslab.Alloc.Sort.{rearrange}
use xjtu_oslab.Alloc.Sort.Order.{rearrange_lem, rearrange-All}
use xjtu_oslab.Alloc.Fit.Choice.{find_fit-none, find_fit-eq-none}
use xjtu_oslab.Alloc.Fit.{carve, is_empty, compact, find_fit, allocate_compacted, allocate_mem}
use xjtu_oslab.Alloc.Fit.Grant.{Granted, carve-Granted, find_fit-Granted}
use xjtu_oslab.Alloc.Fit.Compact.{
  holding, compact-holding, compacted, memory_compaction-compacted, compacted-IsSound, compact-All,
}
use xjtu_oslab.Alloc.Invariant.{IsSound, IsWithin}

-- The state with `ab` linked in front of the processes.
abbrev pub linked : AllocatedBlock → Mem → Mem
linked ab m = record m { allocated_block_head = ab ∷ m.allocated_block_head }

-- The block for `ab` is cut from free memory: with it the state is sound, and it is at most
-- `min_slice - 1` larger than requested. The processes `old` keep their sizes.
pub record Success (ab : AllocatedBlock) (old : List AllocatedBlock) (filled : AllocatedBlock)
    (m : Mem) : Type 0 where
  pub sound : IsSound (linked filled m)
  pub same_pid : filled.pid ≡ ab.pid
  pub enough : ab.size ≤ filled.size
  pub slice : filled.size < ab.size + min_slice
  pub others : map holding m.allocated_block_head ≡ map holding old

-- No block is found: the free memory altogether is smaller than the request.
pub record Failure (ab : AllocatedBlock) (free : ℕ) (old : List AllocatedBlock) (m : Mem)
    : Type 0 where
  pub sound : IsSound m
  pub too_small : free < ab.size
  pub others : map holding m.allocated_block_head ≡ map holding old

-- A request with a fresh pid, of a positive size.
pub record IsRequest (ab : AllocatedBlock) (m : Mem) : Type 0 where
  pub positive : 0 < ab.size
  pub current : ab.pid ≡ m.pid
  pub pid_positive : 0 < m.pid
  pub newer : All (λ b. b.pid < ab.pid) m.allocated_block_head

-- The state in which `rest` is what is left of the free list.
abbrev pub with_free : List FreeBlock → Mem → Mem
with_free rest m = record m { free_block = rearrange m.ma_algorithm rest }

pub Granted-Success :
    {m : Mem} {ab filled : AllocatedBlock} {rest : List FreeBlock}
    → IsSound m
    → IsRequest ab m
    → Granted ab m.free_block filled rest
    → (old : List AllocatedBlock) → map holding m.allocated_block_head ≡ map holding old
    → Success ab old filled (with_free rest m)
Granted-Success {m} {filled} {rest} w r g old e = record {
  sound = record {
    tiled = λ a. omega (arith, g.cut a, w.tiled a, sum_by-perm (free_at a) same);
    sizes = omega (arith, sum_by-perm free_size same);
    free_within =
        rearrange-All (IsWithin m.mem_size) m.ma_algorithm rest
          (g.ranges m.mem_size w.free_within).0;
    processes = (omega (arith, (g.ranges m.mem_size w.free_within).1), w.processes);
    newest_first = (rw g.same_pid r.newer, w.newest_first);
    sorted = (rearrange_lem m.ma_algorithm rest).1;
  };
  same_pid = g.same_pid;
  enough = g.enough;
  slice = g.slice;
  others = e;
}
  where
    open r use {positive, current, pid_positive}

    same : Perm (rearrange m.ma_algorithm rest) rest
    same = (rearrange_lem m.ma_algorithm rest).0

IsRequest-compacted : {ab : AllocatedBlock} {m : Mem} → IsRequest ab m → IsRequest ab (compacted m)
IsRequest-compacted {ab} {m} r = record {
  positive = r.positive;
  current = r.current;
  pid_positive = r.pid_positive;
  newer =
      All-mono (λ b k. k.0) (compact 0 m.allocated_block_head).1
        (compact-All (λ p _. p < ab.pid) 0 m.allocated_block_head r.newer);
}

-- The outcome of `allocate_mem` for the state `m`: 1 with a block, or -1.
abbrev pub Outcome : AllocatedBlock → Mem → ℤ × AllocatedBlock × Mem → Type 0
Outcome ab m (pos c, filled, m') = (c ≡ 1) × Success ab m.allocated_block_head filled m'
Outcome ab m (negsuc c, filled, m') =
    (c ≡ 0) × Failure ab (sum_by free_size m.free_block) m.allocated_block_head m'

-- No free block is large enough, there is one, and all of them together are large enough with a rest
-- below `min_slice`.
pub record IsWild (ab : AllocatedBlock) (m : Mem) : Type 0 where
  pub none_fits : All (λ b. b.size < ab.size) m.free_block
  pub nonempty : is_empty m.free_block ≡ false
  pub together : ab.size ≤ sum_by free_size m.free_block
  pub slim : sum_by free_size m.free_block < ab.size + min_slice

-- The free memory above the compacted blocks.
abbrev room : Mem → ℕ
room m = m.mem_size - sum_by allocated_size m.allocated_block_head

module _ {m : Mem} {ab : AllocatedBlock} (w : IsSound m) where
  retry_total :
      (pre_is_null : Bool)
      → IsRequest ab m
      → (pre_is_null ≡ false
          → ab.size ≤ sum_by free_size m.free_block
          → sum_by free_size m.free_block < ab.size + min_slice
          → ⊥)
      → (r : ℤ × AllocatedBlock × Mem) × (allocate_compacted pre_is_null ab
            (compacted m).free_block
            (compacted m)
          ≡ ok r)
        × Outcome ab m r
  unfolding allocate_compacted
  retry_total pre_is_null r tame = elim (Bool-cases (ltb (room m) ab.size)) [
    | inl small ↦ (
      (negsuc 0, ab, compacted m),
      rw small,
      (
        refl,
        record {
          sound = compacted-IsSound w;
          too_small = ground (arith, w.sizes);
          others = compact-holding 0 m.allocated_block_head;
        },
      ),
    )
    | inr enough ↦ elim (Bool-cases (ltb (room m - ab.size) min_slice && not pre_is_null)) [
      | inl wild ↦ absurd (ground (arith, tame, w.sizes))
      | inr safe ↦ (
        (pos 1, cut.0, with_free cut.1 (compacted m)),
        rw (enough, safe),
        (
          refl,
          Granted-Success (compacted-IsSound w) (IsRequest-compacted r)
              (carve-Granted ab top [] (ground arith)) m.allocated_block_head
              (compact-holding 0 m.allocated_block_head),
        ),
      )
    ]
  ]
    where
      top : FreeBlock
      top = record { size = room m; start_addr = sum_by allocated_size m.allocated_block_head }

      cut : AllocatedBlock × List FreeBlock
      cut = carve ab top []

  -- For a sound state and a new request of a positive size `allocate_mem` is defined unless `IsWild`
  -- holds. If it returns 1, the block that it filled in is cut from free memory and the state with it
  -- linked in is sound; if it returns -1, the free memory altogether is smaller than the request.
  -- Either way the state is sound and the other processes keep their sizes.
  pub allocate_mem-Outcome :
      IsRequest ab m
      → ¬ IsWild ab m
      → (r : ℤ × AllocatedBlock × Mem) × (allocate_mem ab m ≡ ok r) × Outcome ab m r
  unfolding allocate_mem
  allocate_mem-Outcome r tame = elim (Option-cases (find_fit ab m.free_block)) [
    | inl e ↦
        let (out, eq, good) = retry_total (is_empty m.free_block) r (λ full h slim. tame (record {
          none_fits = find_fit-eq-none ab m.free_block e;
          nonempty = full;
          together = h;
          slim = slim;
        })) in
        (out, rw (e, allocate_mem, memory_compaction-compacted w) eq, good)
    | inr ((filled, rest), e) ↦ (
      (pos 1, filled, with_free rest m),
      rw (e, allocate_mem),
      (
        refl,
        Granted-Success w r (OnSome_at _ _ (find_fit-Granted ab m.free_block) e)
            m.allocated_block_head refl,
      ),
    )
  ]

  -- In a sound state `IsWild` is undefined behaviour: the second attempt unlinks the node behind a
  -- node that `memory_compaction` has freed.
  pub allocate_mem-undefined : IsWild ab m → allocate_mem ab m ≡ undefined
  unfolding allocate_mem allocate_compacted
  allocate_mem-undefined wild =
      rw (find_fit-none ab m.free_block wild.none_fits, allocate_mem, memory_compaction-compacted w)
        (ground (arith, wild.nonempty, wild.together, wild.slim, w.sizes))

pub dec_IsWild : (ab : AllocatedBlock) (m : Mem) → Dec (IsWild ab m)
dec_IsWild ab m = elim (Option-cases (find_fit ab m.free_block)) [
  | inr (r, e) ↦ no (λ w. cc (find_fit-none ab m.free_block w.none_fits))
  | inl e ↦ elim (Bool-cases (is_empty m.free_block)) [
    | inl empty ↦ no (λ w. cc (w.nonempty))
    | inr full ↦ elim (dec_le ab.size (sum_by free_size m.free_block)) [
      | no less ↦ no (λ w. less w.together)
      | yes more ↦ elim (dec_lt (sum_by free_size m.free_block) (ab.size + min_slice)) [
        | no wide ↦ no (λ w. wide w.slim)
        | yes slim ↦ yes (record {
          none_fits = find_fit-eq-none ab m.free_block e;
          nonempty = full;
          together = more;
          slim = slim;
        })
      ]
    ]
  ]
]
