-- ===== src/Alloc/Free/Merge.antt =====
-- `memory_merge` of lab2/2-3.c on the list that `memory_sort` has sorted.
use xjtu_oslab.Base.{
  ℕ, ◌+◌, ◌≤◌, ◌≡◌, ◌≢◌, refl, List, [], ◌∷◌, All, All-mono, sum_by, sum_by-perm, arith, Bool-cases,
  inl, inr, ◌==◌, ◌∙◌,
}
use xjtu_oslab.Alloc.State.{FreeBlock, free_at, free_size, first_fit}
use xjtu_oslab.Alloc.Sort.{memory_sort, rearrange}
use xjtu_oslab.Alloc.Sort.Order.{IsSorted, rearrange_lem, memory_sort-rearrange}
use xjtu_oslab.Alloc.Free.{merge_from, memory_merge}
use xjtu_oslab.Alloc.Invariant.{IsWithin}

-- No block begins where the one before it ends; `e` is the end of the block before the list.
abbrev pub IsSeparatedFrom : ℕ → List FreeBlock → Type 0
IsSeparatedFrom e [] = Unit
IsSeparatedFrom e (b ∷ bs) = (e ≢ b.start_addr) × IsSeparatedFrom (b.start_addr + b.size) bs

abbrev pub IsSeparated : List FreeBlock → Type 0
IsSeparated [] = Unit
IsSeparated (b ∷ bs) = IsSeparatedFrom (b.start_addr + b.size) bs

-- Two blocks as one, where the second begins at the end of the first.
abbrev joined : FreeBlock → FreeBlock → FreeBlock
joined x y = record x { size = x.size + y.size }

-- Induction over the loop, by the two outcomes of its test.
merge_ind :
    (P : FreeBlock → List FreeBlock → List FreeBlock → Type 0)
    → ((x : FreeBlock) → P x [] (x ∷ []))
    → ((x y : FreeBlock) (l r : List FreeBlock)
        → x.start_addr + x.size ≡ y.start_addr
        → P (joined x y) l r
        → P x (y ∷ l) r)
    → ((x y : FreeBlock) (l r : List FreeBlock)
        → x.start_addr + x.size ≢ y.start_addr
        → P y l r
        → P x (y ∷ l) (x ∷ r))
    → (x : FreeBlock) (l : List FreeBlock) → P x l (merge_from x l)
unfolding merge_from
merge_ind P last join skip x [] = last x
merge_ind P last join skip x (y ∷ l) = elim (Bool-cases (x.start_addr + x.size == y.start_addr)) [
  | inl e ↦
      rw (e, merge_from) (join x y l _ (ground arith) (merge_ind P last join skip (joined x y) l))
  | inr e ↦ rw (e, merge_from) (skip x y l _ (ground arith) (merge_ind P last join skip y l))
]

merge_from-cover :
    (a : ℕ) (x : FreeBlock) (l : List FreeBlock)
    → sum_by (free_at a) (merge_from x l) ≡ free_at a x + sum_by (free_at a) l
merge_from-cover a =
    merge_ind (λ x l r. sum_by (free_at a) r ≡ free_at a x + sum_by (free_at a) l)
      (λ x. omega arith) (λ x y l r e ih. ground arith) (λ x y l r e ih. omega arith)

merge_from-size :
    (x : FreeBlock) (l : List FreeBlock)
    → sum_by free_size (merge_from x l) ≡ x.size + sum_by free_size l
merge_from-size =
    merge_ind (λ x l r. sum_by free_size r ≡ x.size + sum_by free_size l) (λ x. omega arith)
      (λ x y l r e ih. omega arith) (λ x y l r e ih. omega arith)

merge_from-All :
    (P : FreeBlock → Type 0)
    → ((x y : FreeBlock) → x.start_addr + x.size ≡ y.start_addr → P x → P y → P (joined x y))
    → (x : FreeBlock) (l : List FreeBlock) → All P (x ∷ l)
    → All P (merge_from x l)
merge_from-All P join =
    merge_ind (λ x l r. All P (x ∷ l) → All P r) (λ x h. h)
      (λ x y l r e ih h. ih (join x y e h.0 h.1.0, h.1.1)) (λ x y l r e ih h. (h.0, ih h.1))

merge_from-IsSorted :
    (x : FreeBlock) (l : List FreeBlock)
    → IsSorted first_fit (x ∷ l)
    → IsSorted first_fit (merge_from x l) × All (λ b. x.start_addr ≤ b.start_addr) (merge_from x l)
merge_from-IsSorted =
    merge_ind
      (λ x l r.
        IsSorted first_fit (x ∷ l)
        → IsSorted first_fit r × All (λ b. x.start_addr ≤ b.start_addr) r)
      (λ x h. (h, (omega arith, tt))) (λ x y l r e ih h. ih (h.0.1, h.1.1))
      (λ x y l r e ih h.
        let (s, above) = ih h.1 in
        let below = All-mono {Q = λ b. x.start_addr ≤ b.start_addr} (λ b k. omega arith) r above in
        ((below, s), (omega arith, below)))

merge_from-IsSeparated :
    (x : FreeBlock) (l : List FreeBlock) (e : ℕ)
    → e ≢ x.start_addr
    → IsSeparatedFrom e (merge_from x l)
merge_from-IsSeparated =
    merge_ind (λ x l r. (e : ℕ) → e ≢ x.start_addr → IsSeparatedFrom e r) (λ x e h. (h, tt))
      (λ x y l r e ih e' h. ih e' h) (λ x y l r e ih e' h. (h, ih _ e))

IsSeparated-of_from : (e : ℕ) (l : List FreeBlock) → IsSeparatedFrom e l → IsSeparated l
IsSeparated-of_from e [] h = tt
IsSeparated-of_from e (b ∷ bs) h = h.1

pub memory_merge-cover :
    (a : ℕ) (l : List FreeBlock) → sum_by (free_at a) (memory_merge l) ≡ sum_by (free_at a) l
unfolding memory_merge
memory_merge-cover a [] = refl
memory_merge-cover a (x ∷ l) = merge_from-cover a x l

pub memory_merge-size :
    (l : List FreeBlock) → sum_by free_size (memory_merge l) ≡ sum_by free_size l
unfolding memory_merge
memory_merge-size [] = refl
memory_merge-size (x ∷ l) = merge_from-size x l

pub memory_merge-IsWithin :
    (n : ℕ) (l : List FreeBlock) → All (IsWithin n) l → All (IsWithin n) (memory_merge l)
unfolding memory_merge
memory_merge-IsWithin n [] h = tt
memory_merge-IsWithin n (x ∷ l) h = merge_from-All (IsWithin n) (λ x y e p q. omega arith) x l h

memory_merge-IsSorted :
    (l : List FreeBlock)
    → IsSorted first_fit l
    → IsSorted first_fit (memory_merge l) × IsSeparated (memory_merge l)
unfolding memory_merge
memory_merge-IsSorted [] h = (tt, tt)
memory_merge-IsSorted (x ∷ l) h = (
  (merge_from-IsSorted x l h).0,
  IsSeparated-of_from (x.start_addr + 1) _ (merge_from-IsSeparated x l _ (omega arith)),
)

-- `memory_merge` after `memory_sort` returns the free blocks by rising address, none of them
-- beginning where the one before it ends, and each address is covered as often as before.
pub memory_merge-memory_sort :
    (l : List FreeBlock)
    → IsSorted first_fit (memory_merge (memory_sort l))
      × IsSeparated (memory_merge (memory_sort l))
      × ((a : ℕ) → sum_by (free_at a) (memory_merge (memory_sort l)) ≡ sum_by (free_at a) l)
memory_merge-memory_sort l =
    let (same, sorted) = rearrange_lem first_fit l in
    let (s, apart) = memory_merge-IsSorted _ sorted in
    rw (memory_sort-rearrange l)
      (s, apart, λ a. memory_merge-cover a (rearrange first_fit l) ∙ sum_by-perm (free_at a) same)
