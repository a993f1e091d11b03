-- ===== src/Alloc/Sort/Order.antt =====
-- The exchange sorts of lab2/2-3.c return the same blocks, in the order of the algorithm.
use mathlib.Core.List.Perm
use xjtu_oslab.Base.{
  ℕ, zero, suc, ◌≤◌, true, false, List, [], ◌∷◌, Perm, length, ◌≡◌, refl, ap, arith, All, inl, inr,
  Bool-cases, if◌then◌else◌,
}
use xjtu_oslab.Alloc.State.{FreeBlock, Algorithm, first_fit, best_fit, worst_fit}
use xjtu_oslab.Alloc.Sort.{out_of_order, exchange, exchange_sort, rearrange, memory_sort}

-- `i` may stand before `j`.
abbrev pub InOrder : Algorithm → FreeBlock → FreeBlock → Type 0
InOrder first_fit i j = i.start_addr ≤ j.start_addr
InOrder best_fit i j = i.size ≤ j.size
InOrder worst_fit i j = j.size ≤ i.size

-- Each block may stand before all that follow it.
abbrev pub IsSorted : Algorithm → List FreeBlock → Type 0
IsSorted alg [] = Unit
IsSorted alg (b ∷ bs) = All (InOrder alg b) bs × IsSorted alg bs

InOrder-out_of_order :
    (alg : Algorithm) (i j : FreeBlock)
    → (if out_of_order alg i j then InOrder alg j i else InOrder alg i j)
unfolding out_of_order
InOrder-out_of_order first_fit i j = ground arith
InOrder-out_of_order best_fit i j = ground arith
InOrder-out_of_order worst_fit i j = ground arith

pub InOrder-refl : (alg : Algorithm) (i : FreeBlock) → InOrder alg i i
InOrder-refl first_fit i = omega arith
InOrder-refl best_fit i = omega arith
InOrder-refl worst_fit i = omega arith

pub InOrder-trans :
    (alg : Algorithm) (i j k : FreeBlock) → InOrder alg i j → InOrder alg j k → InOrder alg i k
InOrder-trans first_fit i j k p q = omega arith
InOrder-trans best_fit i j k p q = omega arith
InOrder-trans worst_fit i j k p q = omega arith

module _ (alg : Algorithm) where
  exchange_swap :
      (i j : FreeBlock) (js : List FreeBlock)
      → out_of_order alg i j ≡ true
      → exchange alg i (j ∷ js) ≡ ((exchange alg j js).0, i ∷ (exchange alg j js).1)
  unfolding exchange
  exchange_swap i j js e = rw e

  exchange_stay :
      (i j : FreeBlock) (js : List FreeBlock)
      → out_of_order alg i j ≡ false
      → exchange alg i (j ∷ js) ≡ ((exchange alg i js).0, j ∷ (exchange alg i js).1)
  unfolding exchange
  exchange_stay i j js e = rw e

  -- Induction over the inner loop, by the two outcomes of its test.
  exchange_ind :
      (P : FreeBlock → List FreeBlock → FreeBlock × List FreeBlock → Type 0)
      → ((i : FreeBlock) → P i [] (i, []))
      → ((i j : FreeBlock) (js : List FreeBlock) (r : FreeBlock × List FreeBlock)
          → InOrder alg j i
          → P j js r
          → P i (j ∷ js) (r.0, i ∷ r.1))
      → ((i j : FreeBlock) (js : List FreeBlock) (r : FreeBlock × List FreeBlock)
          → InOrder alg i j
          → P i js r
          → P i (j ∷ js) (r.0, j ∷ r.1))
      → (i : FreeBlock) (js : List FreeBlock) → P i js (exchange alg i js)
  exchange_ind P none_left swap stay i [] = unfold exchange in none_left i
  exchange_ind P none_left swap stay i (j ∷ js) = elim (Bool-cases (out_of_order alg i j)) [
    | inl e ↦ rw (exchange_swap i j js e) (
        swap i j js _ (rw e at (InOrder-out_of_order alg i j))
          (exchange_ind P none_left swap stay j js))
    | inr e ↦ rw (exchange_stay i j js e) (
        stay i j js _ (rw e at (InOrder-out_of_order alg i j))
          (exchange_ind P none_left swap stay i js))
  ]

  exchange-perm :
      (i : FreeBlock) (js : List FreeBlock)
      → Perm ((exchange alg i js).0 ∷ (exchange alg i js).1) (i ∷ js)
  exchange-perm =
      exchange_ind (λ i js r. Perm (r.0 ∷ r.1) (i ∷ js)) (λ i. Perm.refl _)
        (λ i j js r o p. Perm.trans (Perm.swap _ _ _) (Perm.cons i p))
        (λ i j js r o p.
          Perm.trans (Perm.swap _ _ _) (Perm.trans (Perm.cons j p) (Perm.swap _ _ _)))

  length-exchange : (i : FreeBlock) (js : List FreeBlock) → length (exchange alg i js).1 ≡ length js
  length-exchange =
      exchange_ind (λ i js r. length r.1 ≡ length js) (λ i. refl) (λ i j js r o p. ap suc p)
        (λ i j js r o p. ap suc p)

  exchange-All :
      (P : FreeBlock → Type 0) (i : FreeBlock) (js : List FreeBlock)
      → P i
      → All P js
      → P (exchange alg i js).0 × All P (exchange alg i js).1
  exchange-All P =
      exchange_ind (λ i js r. P i → All P js → P r.0 × All P r.1) (λ i p ps. (p, tt))
        (λ i j js r o ih p ps. let (h, hs) = ih ps.0 ps.1 in (h, (p, hs)))
        (λ i j js r o ih p ps. let (h, hs) = ih p ps.1 in (h, (ps.0, hs)))

  -- What the inner loop leaves at its node may stand before all that it went over.
  exchange-least :
      (i : FreeBlock) (js : List FreeBlock)
      → InOrder alg (exchange alg i js).0 i
        × All (InOrder alg (exchange alg i js).0) (exchange alg i js).1
  exchange-least =
      exchange_ind (λ i js r. InOrder alg r.0 i × All (InOrder alg r.0) r.1)
        (λ i. (InOrder-refl alg i, tt))
        (λ i j js r o ih. let below = InOrder-trans alg r.0 j i ih.0 o in (below, (below, ih.1)))
        (λ i j js r o ih. (ih.0, (InOrder-trans alg r.0 i j ih.0 o, ih.1)))

  pub exchange_sort-perm : (n : ℕ) (l : List FreeBlock) → Perm (exchange_sort alg n l) l
  unfolding exchange_sort
  exchange_sort-perm zero l = Perm.refl l
  exchange_sort-perm (suc n) [] = Perm.refl []
  exchange_sort-perm (suc n) (i ∷ js) =
      Perm.trans (Perm.cons _ (exchange_sort-perm n _)) (exchange-perm i js)

  pub exchange_sort-All :
      (P : FreeBlock → Type 0) (n : ℕ) (l : List FreeBlock)
      → All P l
      → All P (exchange_sort alg n l)
  unfolding exchange_sort
  exchange_sort-All P zero l ps = ps
  exchange_sort-All P (suc n) [] ps = tt
  exchange_sort-All P (suc n) (i ∷ js) ps =
      let (h, hs) = exchange-All P i js ps.0 ps.1 in (h, exchange_sort-All P n _ hs)

  pub exchange_sort-IsSorted :
      (n : ℕ) (l : List FreeBlock) → length l ≡ n → IsSorted alg (exchange_sort alg n l)
  unfolding exchange_sort
  exchange_sort-IsSorted zero [] e = tt
  exchange_sort-IsSorted zero (i ∷ js) e = absurd (omega arith)
  exchange_sort-IsSorted (suc n) [] e = tt
  exchange_sort-IsSorted (suc n) (i ∷ js) e = (
    exchange_sort-All _ n _ (exchange-least i js).1,
    exchange_sort-IsSorted n _ (omega (arith, length-exchange i js)),
  )

-- `rearrange` is the exchange sort of its algorithm.
pub rearrange-exchange_sort :
    (alg : Algorithm) (l : List FreeBlock) → rearrange alg l ≡ exchange_sort alg (length l) l
unfolding rearrange
rearrange-exchange_sort first_fit l = refl
rearrange-exchange_sort best_fit l = refl
rearrange-exchange_sort worst_fit l = refl

-- For each of the three algorithms `rearrange` returns the same free blocks, each of them as often,
-- and in the order of the algorithm: by rising address, by rising size, or by falling size.
pub rearrange_lem :
    (alg : Algorithm) (l : List FreeBlock)
    → Perm (rearrange alg l) l × IsSorted alg (rearrange alg l)
rearrange_lem alg l =
    rw (rearrange-exchange_sort alg l)
      (exchange_sort-perm alg (length l) l, exchange_sort-IsSorted alg (length l) l refl)

pub rearrange-All :
    (P : FreeBlock → Type 0) (alg : Algorithm) (l : List FreeBlock)
    → All P l
    → All P (rearrange alg l)
rearrange-All P alg l ps =
    rw (rearrange-exchange_sort alg l) (exchange_sort-All alg P (length l) l ps)

-- `memory_sort` is the exchange sort by address.
pub memory_sort-rearrange : (l : List FreeBlock) → memory_sort l ≡ rearrange first_fit l
unfolding memory_sort rearrange
memory_sort-rearrange l = refl
