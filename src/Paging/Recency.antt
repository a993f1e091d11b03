-- ===== src/Paging/Recency.antt =====
-- The specification of LRU: pages by the time of their last use. A page fault is a page that is not
-- among the `n` that were used last.
use xjtu_oslab.Base.{
  ℕ, zero, suc, ◌+◌, ◌≤◌, ◌≡◌, refl, arith, List, [], ◌∷◌, ◌++◌, Bool, true, false, ◌==◌,
  if◌then◌else◌, ◌||◌, take, length, ap, ◌∙◌, sym, Bool-cases, inl, inr, length-append, ==_iff,
}

abbrev pub has : ℕ → List ℕ → Bool
has page [] = false
has page (x ∷ l) = (x == page) || has page l

abbrev pub without : ℕ → List ℕ → List ℕ
without page [] = []
without page (x ∷ l) = if x == page then without page l else x ∷ without page l

-- The pages in use, the last used first, after one more use.
abbrev pub touch : ℕ → List ℕ → List ℕ
touch page l = page ∷ without page l

abbrev pub IsDistinct : List ℕ → Type 0
IsDistinct [] = Unit
IsDistinct (x ∷ l) = (has x l ≡ false) × IsDistinct l

-- The page faults of a trace with `n` frames, after which the pages stand in this order of use.
unfoldable pub misses : ℕ → List ℕ → List ℕ → ℕ
misses n l [] = 0
misses n l (page ∷ pages) = (if has page (take n l) then 0 else 1) + misses n (touch page l) pages

unfoldable pub recency : List ℕ → List ℕ → List ℕ
recency l [] = l
recency l (page ∷ pages) = recency (touch page l) pages

-- The same pages, the last used at the end.
abbrev pub oldest_first : List ℕ → List ℕ
oldest_first [] = []
oldest_first (x ∷ l) = oldest_first l ++ x ∷ []

has-take_mono :
    (page m n : ℕ) (l : List ℕ) → m ≤ n → has page (take m l) ≡ true → has page (take n l) ≡ true
has-take_mono page zero n l h k = cc
has-take_mono page (suc m) zero l h k = absurd (omega arith)
has-take_mono page (suc m) (suc n) [] h k = cc
has-take_mono page (suc m) (suc n) (x ∷ l) h k = ground (arith, has-take_mono page m n l)

-- With more frames there are no more misses.
pub misses_mono : (m n : ℕ) (l pages : List ℕ) → m ≤ n → misses n l pages ≤ misses m l pages
unfolding misses
misses_mono m n l [] h = omega arith
misses_mono m n l (page ∷ pages) h =
    ground (arith, has-take_mono page m n l h, misses_mono m n (touch page l) pages h)

has-without :
    (page x : ℕ) (l : List ℕ) → has x (without page l) ≡ (if x == page then false else has x l)
has-without page x [] = ground arith
has-without page x (y ∷ l) = ground (arith, has-without page x l)

pub without-IsDistinct : (page : ℕ) (l : List ℕ) → IsDistinct l → IsDistinct (without page l)
without-IsDistinct page [] d = tt
without-IsDistinct page (x ∷ l) d =
    ground (arith, has-without page x l, without-IsDistinct page l d.1)

pub touch-IsDistinct : (page : ℕ) (l : List ℕ) → IsDistinct l → IsDistinct (touch page l)
touch-IsDistinct page l d = (ground (arith, has-without page page l), without-IsDistinct page l d)

pub without_absent : (page : ℕ) (l : List ℕ) → has page l ≡ false → without page l ≡ l
without_absent page [] h = refl
without_absent page (x ∷ l) h = ground (arith, without_absent page l)

pub has-take : (n page : ℕ) (l : List ℕ) → has page l ≡ false → has page (take n l) ≡ false
has-take zero page l h = refl
has-take (suc n) page [] h = refl
has-take (suc n) page (x ∷ l) h = ground (arith, has-take n page l)

take-without_hit :
    (n page : ℕ) (l : List ℕ)
    → IsDistinct l
    → has page (take (suc n) l) ≡ true
    → take n (without page l) ≡ without page (take (suc n) l)
take-without_hit n page [] d h = cc
take-without_hit zero page (x ∷ l) d h = ground arith
take-without_hit (suc n) page (x ∷ l) d h = elim (Bool-cases (x == page)) [
  | inl e ↦
      let absent : has page l ≡ false = ap (λ (p : ℕ). has p l) (sym ((==_iff x page).0 e)) ∙ d.0 in
      rw (
        e,
        without_absent page l absent,
        without_absent page (take (suc n) l) (has-take (suc n) page l absent),
      )
  | inr e ↦
      let later : has page (take (suc n) l) ≡ true = ground arith in
      rw e (ap (◌∷◌ x) (take-without_hit n page l d.1 later))
]

-- A hit among the `n` last used pages only reorders them.
pub take-touch_hit :
    (n page : ℕ) (l : List ℕ)
    → IsDistinct l
    → has page (take n l) ≡ true
    → take n (touch page l) ≡ touch page (take n l)
take-touch_hit zero page l d h = cc
take-touch_hit (suc n) page l d h = ap (◌∷◌ page) (take-without_hit n page l d h)

take-without_miss :
    (n page : ℕ) (l : List ℕ) → has page (take n l) ≡ false → take n (without page l) ≡ take n l
take-without_miss zero page l h = refl
take-without_miss (suc n) page [] h = refl
take-without_miss (suc n) page (x ∷ l) h = ground (arith, take-without_miss n page l)

-- A page fault puts the page in front of them, and drops the last if there are `n + 1`.
pub take-touch_miss :
    (n page : ℕ) (l : List ℕ)
    → has page (take (suc n) l) ≡ false
    → take (suc n) (touch page l) ≡ page ∷ take n l
take-touch_miss n page l h = ap (◌∷◌ page) (take-without_miss n page l (shorter n l h))
  where
    shorter : (n : ℕ) (l : List ℕ) → has page (take (suc n) l) ≡ false → has page (take n l) ≡ false
    shorter zero l h = refl
    shorter (suc n) [] h = refl
    shorter (suc n) (x ∷ l) h = ground (arith, shorter n l)

has-append_one : (page x : ℕ) (l : List ℕ) → has page (l ++ x ∷ []) ≡ (has page l || (x == page))
has-append_one page x [] = ground arith
has-append_one page x (y ∷ l) = ground (arith, has-append_one page x l)

pub has-oldest_first : (page : ℕ) (l : List ℕ) → has page (oldest_first l) ≡ has page l
has-oldest_first page [] = refl
has-oldest_first page (x ∷ l) =
    ground (arith, has-append_one page x (oldest_first l), has-oldest_first page l)

without-append_one :
    (page x : ℕ) (l : List ℕ)
    → without page (l ++ x ∷ []) ≡ (if x == page then without page l else without page l ++ x ∷ [])
without-append_one page x [] = ground arith
without-append_one page x (y ∷ l) = ground (arith, without-append_one page x l)

pub without-oldest_first :
    (page : ℕ) (l : List ℕ) → without page (oldest_first l) ≡ oldest_first (without page l)
without-oldest_first page [] = refl
without-oldest_first page (x ∷ l) =
    ground (arith, without-append_one page x (oldest_first l), without-oldest_first page l)

pub length-oldest_first : (l : List ℕ) → length (oldest_first l) ≡ length l
length-oldest_first [] = refl
length-oldest_first (x ∷ l) =
    omega (arith, length-append (oldest_first l) (x ∷ []), length-oldest_first l)

append_one-IsDistinct :
    (x : ℕ) (l : List ℕ) → IsDistinct l → has x l ≡ false → IsDistinct (l ++ x ∷ [])
append_one-IsDistinct x [] d h = (refl, tt)
append_one-IsDistinct x (y ∷ l) d h =
    (ground (arith, has-append_one y x l), append_one-IsDistinct x l d.1 (ground arith))

pub oldest_first-IsDistinct : (l : List ℕ) → IsDistinct l → IsDistinct (oldest_first l)
oldest_first-IsDistinct [] d = tt
oldest_first-IsDistinct (x ∷ l) d =
    append_one-IsDistinct x (oldest_first l) (oldest_first-IsDistinct l d.1)
      (has-oldest_first x l ∙ d.0)

pub take-IsDistinct : (n : ℕ) (l : List ℕ) → IsDistinct l → IsDistinct (take n l)
take-IsDistinct zero l d = tt
take-IsDistinct (suc n) [] d = tt
take-IsDistinct (suc n) (x ∷ l) d = (has-take n x l d.0, take-IsDistinct n l d.1)

-- With `n + 1` pages there is an oldest one.
pub oldest_first-take :
    (n : ℕ) (l : List ℕ)
    → length (take (suc n) l) ≡ suc n
    → (x : ℕ) × (oldest_first (take (suc n) l) ≡ x ∷ oldest_first (take n l))
oldest_first-take n [] h = absurd (omega arith)
oldest_first-take zero (y ∷ l) h = (y, refl)
oldest_first-take (suc n) (y ∷ l) h =
    let (x, e) = oldest_first-take n l (omega arith) in (x, ap (λ (z : List ℕ). z ++ y ∷ []) e)

pub take_short : (n : ℕ) (l : List ℕ) → length (take (suc n) l) ≤ n → take (suc n) l ≡ take n l
take_short n [] h = take_nil n
  where
    take_nil : (n : ℕ) → ◌≡◌ {A = List ℕ} [] (take n [])
    take_nil zero = refl
    take_nil (suc n) = refl
take_short zero (x ∷ l) h = absurd (omega arith)
take_short (suc n) (x ∷ l) h = ap (◌∷◌ x) (take_short n l (omega arith))

pub length-take_le : (n : ℕ) (l : List ℕ) → length (take n l) ≤ n
length-take_le zero l = omega arith
length-take_le (suc n) [] = omega arith
length-take_le (suc n) (x ∷ l) = omega (arith, length-take_le n l)
