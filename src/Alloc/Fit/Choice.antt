-- ===== src/Alloc/Fit/Choice.antt =====
-- Which free block the loop of `allocate_mem` of lab2/2-3.c takes.
use xjtu_oslab.Base.{
  ◌+◌, ◌-◌, ◌++◌, ◌⊎◌, ap, ltb, ◌≤◌, ◌<◌, ◌≡◌, refl, List, [], ◌∷◌, All, All-mono, OnSome,
  OnSome-map, OnSome-mono, OnSome_at, some, none, Bool-cases, inl, inr, arith, leb,
}
use xjtu_oslab.Alloc.State.{min_slice, FreeBlock, AllocatedBlock, Algorithm}
use xjtu_oslab.Alloc.Sort.Order.{InOrder, InOrder-refl, IsSorted}
use xjtu_oslab.Alloc.Fit.{carve, find_fit}

-- What is made of a block that is taken for `ab`: it is given away whole where the rest would be below
-- `min_slice`; otherwise its front, of the size that is asked, is given away, and the rest stays free.
pub record Cut (ab : AllocatedBlock) (chosen : FreeBlock) (filled : AllocatedBlock)
    (left : List FreeBlock) : Type 0 where
  pub same_pid : filled.pid ≡ ab.pid
  pub starts : filled.start_addr ≡ chosen.start_addr
  pub parts :
      ((chosen.size < ab.size + min_slice) × (filled.size ≡ chosen.size) × (left ≡ []))
      ⊎ ((ab.size + min_slice ≤ chosen.size)
          × (filled.size ≡ ab.size)
          × (rest : FreeBlock) × (left ≡ rest ∷ [])
          × (rest.start_addr ≡ chosen.start_addr + ab.size)
          × (rest.size + ab.size ≡ chosen.size))

-- The block of `l` that `filled` was cut from: the first of the best of those in `l` that are large
-- enough. In `l'` what is left of it stands in its place, between the same blocks.
pub record Chosen (alg : Algorithm) (ab : AllocatedBlock) (l : List FreeBlock)
    (filled : AllocatedBlock) (l' : List FreeBlock) : Type 0 where
  pub chosen : FreeBlock
  pub before : List FreeBlock
  pub behind : List FreeBlock
  pub left : List FreeBlock
  pub listed : l ≡ before ++ (chosen ∷ behind)
  pub replaced : l' ≡ before ++ (left ++ behind)
  pub cut : Cut ab chosen filled left
  pub fits : ab.size ≤ chosen.size
  pub small : All (λ b. b.size < ab.size) before
  pub best : All (λ b. ab.size ≤ b.size → InOrder alg chosen b) l

module _ (alg : Algorithm) (ab : AllocatedBlock) where
  carve-Cut :
      (fbt : FreeBlock) (next : List FreeBlock)
      → ab.size ≤ fbt.size
      → (left : List FreeBlock) × ((carve ab fbt next).1 ≡ left ++ next)
        × Cut ab fbt (carve ab fbt next).0 left
  unfolding carve
  carve-Cut fbt next h = elim (Bool-cases (ltb (fbt.size - ab.size) min_slice)) [
    | inl whole ↦ (
      [],
      rw whole refl,
      rw whole (record { same_pid = refl; starts = refl; parts = inl (ground arith, refl, refl) }),
    )
    | inr split ↦
        let rest : FreeBlock = record {
          size = fbt.size - ab.size;
          start_addr = fbt.start_addr + ab.size;
        } in
        (
          rest ∷ [],
          rw split refl,
          rw split (record {
            same_pid = refl;
            starts = refl;
            parts = inr (ground arith, refl, rest, refl, refl, omega arith);
          }),
        )
  ]

  Chosen-here :
      (fbt : FreeBlock) (next : List FreeBlock)
      → ab.size ≤ fbt.size
      → All (InOrder alg fbt) next
      → Chosen alg ab (fbt ∷ next) (carve ab fbt next).0 (carve ab fbt next).1
  Chosen-here fbt next h sorted =
      let (left, replaced, cut) = carve-Cut fbt next h in
      record {
        chosen = fbt;
        before = [];
        behind = next;
        left = left;
        listed = refl;
        replaced = replaced;
        cut = cut;
        fits = h;
        small = tt;
        best = (λ _. InOrder-refl alg fbt, All-mono (λ b o _. o) next sorted);
      }

  Chosen-later :
      (fbt : FreeBlock) (next : List FreeBlock) {filled : AllocatedBlock} {l' : List FreeBlock}
      → fbt.size < ab.size
      → Chosen alg ab next filled l'
      → Chosen alg ab (fbt ∷ next) filled (fbt ∷ l')
  Chosen-later fbt next h c = record {
    chosen = c.chosen;
    before = fbt ∷ c.before;
    behind = c.behind;
    left = c.left;
    listed = ap (◌∷◌ fbt) c.listed;
    replaced = ap (◌∷◌ fbt) c.replaced;
    cut = c.cut;
    fits = c.fits;
    small = (h, c.small);
    best = (λ k. absurd (omega arith), c.best);
  }

  OnSome-Chosen :
      (l : List FreeBlock) → IsSorted alg l → OnSome (λ r. Chosen alg ab l r.0 r.1) (find_fit ab l)
  unfolding find_fit
  OnSome-Chosen [] s = tt
  OnSome-Chosen (fbt ∷ next) s = elim (Bool-cases (leb ab.size fbt.size)) [
    | inl fits ↦ rw fits (Chosen-here fbt next (ground arith) s.0)
    | inr small ↦ rw small (
        OnSome-map _ _ (find_fit ab next) (
          OnSome-mono (λ r c. Chosen-later fbt next (ground arith) c) (find_fit ab next)
            (OnSome-Chosen next s.1)))
  ]

-- In a free list that is sorted for the algorithm, the block found is cut from the front of a block of
-- the list that is large enough and that the algorithm prefers to every other such block: the one
-- with the lowest address (first fit), the smallest (best fit), or the largest (worst fit). All
-- blocks before it are too small. Where its rest would be below `min_slice` the block is given away
-- whole and leaves the list; otherwise exactly the size that is asked is given away, and the rest
-- stands in its place. The other blocks stay as they are, and the block found keeps the pid.
pub find_fit-Chosen :
    (alg : Algorithm) (ab : AllocatedBlock) (l : List FreeBlock) {filled : AllocatedBlock}
    {l' : List FreeBlock}
    → IsSorted alg l
    → find_fit ab l ≡ some (filled, l')
    → Chosen alg ab l filled l'
find_fit-Chosen alg ab l s e =
    OnSome_at (λ r. Chosen alg ab l r.0 r.1) _ (OnSome-Chosen alg ab l s) e

-- If the loop finds nothing, every free block is too small.
pub find_fit-eq-none :
    (ab : AllocatedBlock) (l : List FreeBlock)
    → find_fit ab l ≡ none
    → All (λ b. b.size < ab.size) l
unfolding find_fit
find_fit-eq-none ab [] h = tt
find_fit-eq-none ab (fbt ∷ next) h = ground (arith, find_fit-eq-none ab next)

pub find_fit-none :
    (ab : AllocatedBlock) (l : List FreeBlock)
    → All (λ b. b.size < ab.size) l
    → find_fit ab l ≡ none
unfolding find_fit
find_fit-none ab [] h = refl
find_fit-none ab (fbt ∷ next) h = ground (arith, find_fit-none ab next h.1)
