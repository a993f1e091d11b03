-- ===== src/Paging/Random.antt =====
-- The page faults of the random traces of lab2/2-4.c.
use xjtu_oslab.Base.{
  ==_iff, Option, OnSome, OnSome_at, none, some, ℤ, pos, ◌%◌, ltb, refl, ℕ, zero, suc, ◌+◌, ◌≤◌,
  ◌<◌, ◌≡◌, sym, ap, ◌∙◌, List, [], ◌∷◌, false, Bool-cases, ◌==◌, inl, inr, length, take-all, All,
  if◌then◌else◌, arith,
}
use xjtu_oslab.Paging.Simulate.{Run, count_of, simulate_lru}
use xjtu_oslab.Paging.Main.{fill_pages, generate_random_pages, max_pages, each_index}
use xjtu_oslab.Paging.Simulate.{Run, count_of, simulate_lru}
use xjtu_oslab.Paging.Lru.{simulate_lru_lem}
use xjtu_oslab.Paging.Recency.{
  has, without, touch, IsDistinct, misses, without-IsDistinct, without_absent, touch-IsDistinct,
}
use xjtu_oslab.Paging.Lru.{simulate_lru_lem}

abbrev AllBelow : ℕ → List ℕ → Type 0
AllBelow k = All (λ x. x < k)

length-without :
    (page : ℕ) (l : List ℕ)
    → IsDistinct l
    → length l ≡ length (without page l) + (if has page l then 1 else 0)
length-without page [] d = refl
length-without page (x ∷ l) d = elim (Bool-cases (x == page)) [
  | inl e ↦
      let absent : has page l ≡ false = ap (λ (p : ℕ). has p l) (sym ((==_iff x page).0 e)) ∙ d.0 in
      rw (e, without_absent page l absent) (omega arith)
  | inr e ↦ rw e (ground (arith, length-without page l d.1))
]

AllBelow-without : (k page : ℕ) (l : List ℕ) → AllBelow k l → AllBelow k (without page l)
AllBelow-without k page [] h = tt
AllBelow-without k page (x ∷ l) h = ground (arith, AllBelow-without k page l h.1)

-- Without the largest, the numbers are smaller.
AllBelow-smaller : (k : ℕ) (l : List ℕ) → AllBelow (suc k) l → AllBelow k (without k l)
AllBelow-smaller k [] h = tt
AllBelow-smaller k (x ∷ l) h = ground (arith, AllBelow-smaller k l h.1)

-- Distinct numbers below `k` are at most `k`.
pigeonhole : (k : ℕ) (l : List ℕ) → AllBelow k l → IsDistinct l → length l ≤ k
pigeonhole zero [] h d = omega arith
pigeonhole zero (x ∷ l) h d = absurd (omega arith)
pigeonhole (suc k) l h d = ground (
  arith,
  length-without k l d,
  pigeonhole k (without k l) (AllBelow-smaller k l h) (without-IsDistinct k l d),
)

-- With a frame for every page, a page only faults the first time.
misses_few :
    (k n : ℕ) (l pages : List ℕ)
    → k ≤ n
    → AllBelow k l
    → IsDistinct l
    → AllBelow k pages
    → misses n l pages + length l ≤ k
unfolding misses
misses_few k n l [] h a d b = omega (arith, pigeonhole k l a d)
misses_few k n l (page ∷ pages) h a d b = rw (take-all n l (omega (arith, pigeonhole k l a d))) (
    ground (
      arith,
      length-without page l d,
      misses_few k n (touch page l) pages h (b.0, AllBelow-without k page l a)
          (touch-IsDistinct page l d) b.1,
    ))

each_index-AllBelow :
    (k : ℕ) (page : ℕ → ℕ) (i n : ℕ) → ((j : ℕ) → page j < k) → AllBelow k (each_index page i n)
unfolding each_index
each_index-AllBelow k page i zero h = tt
each_index-AllBelow k page i (suc n) h = (h i, each_index-AllBelow k page (i + 1) n h)

fill_pages-AllBelow :
    (k : ℕ) (page : ℕ → ℕ) (page_count : ℤ)
    → ((j : ℕ) → page j < k)
    → OnSome (AllBelow k) (fill_pages page page_count)
unfolding fill_pages
fill_pages-AllBelow k page page_count h = elim (Bool-cases (ltb max_pages (count_of page_count))) [
  | inl out ↦ rw out tt
  | inr fits ↦ rw fits (each_index-AllBelow k page 0 (count_of page_count) h)
]

generate_random_pages-AllBelow :
    (rand : ℕ → ℕ) (page_count : ℤ) → OnSome (AllBelow 10) (generate_random_pages rand page_count)
unfolding generate_random_pages
generate_random_pages-AllBelow rand page_count =
    fill_pages-AllBelow 10 (λ i. rand i % 10) page_count (λ j. omega arith)

-- On a random trace `simulateLRU` with at least ten frames counts at most ten page faults, however long
-- the trace is and whatever `rand` returns.
pub random_faults :
    (rand : ℕ → ℕ) (page_count : ℤ) (pages : List ℕ) (n : ℕ) (r : Run)
    → 9 ≤ n
    → generate_random_pages rand page_count ≡ some pages
    → simulate_lru pages (pos (suc n)) ≡ some r
    → r.faults ≤ 10
random_faults rand page_count pages n r h e ran =
    let (r', ran', after) = simulate_lru_lem n pages in
    let same : r'.faults ≡ r.faults = ap faults_of (sym ran' ∙ ran) in
    let below : AllBelow 10 pages =
      OnSome_at (AllBelow 10) (generate_random_pages rand page_count)
        (generate_random_pages-AllBelow rand page_count) e in
    omega (arith, same, after.0, misses_few 10 (suc n) [] pages (omega arith) tt tt below)
  where
    faults_of : Option Run → ℕ
    faults_of none = 0
    faults_of (some r) = r.faults
