-- ===== src/Paging/Lru.antt =====
-- `simulateLRU` of lab2/2-4.c against the specification of LRU.
use xjtu_oslab.Base.{
  ℕ, suc, ◌+◌, ◌-◌, ◌≤◌, ◌≡◌, refl, arith, List, [], ◌∷◌, ◌++◌, Option, some, none, true, false,
  ◌==◌, if◌then◌else◌, take, length, ap, ◌∙◌, sym, Bool-cases, inl, inr, pos, ==_iff,
}
use xjtu_oslab.Paging.Queue.{
  Node, Queue, new_queue, push_queue, has_data, move_to_end, switch_queue, print_queue,
}
use xjtu_oslab.Paging.Simulate.{
  Row, Run, page_fault, push_frame, lru_step, each_page, simulate_lru, hit, fault,
}
use xjtu_oslab.Paging.Frames.{
  map-append_one, IsFrames, pages_of, rest_of, push_queue_lem, move_to_end-IsFrames,
}
use xjtu_oslab.Paging.Recency.{
  oldest_first-IsDistinct, take-IsDistinct, without_absent, oldest_first-take, take_short,
  length-take_le, has, without, touch, IsDistinct, misses, recency, oldest_first, take-touch_hit,
  take-touch_miss, has-oldest_first, without-oldest_first, length-oldest_first, touch-IsDistinct,
  misses_mono,
}

-- The frames hold the last `n` pages of `l`, the oldest at the front of the queue.
pub record Holds (n : ℕ) (l : List ℕ) (q : Queue) : Type 0 where
  pub frames : IsFrames n q
  pub pages : pages_of q.nodes ≡ oldest_first (take n l)
  pub distinct : IsDistinct l

pub has_data-has : (page : ℕ) (l : List Node) → has_data page l ≡ has page (pages_of l)
unfolding has_data
has_data-has page [] = refl
has_data-has page (x ∷ l) = rw (has_data-has page l)

-- Moving the first node of a page to the end of distinct pages.
pages_of-move_to_end :
    (page : ℕ) (l : List Node)
    → IsDistinct (pages_of l)
    → has page (pages_of l) ≡ true
    → pages_of (move_to_end page l) ≡ without page (pages_of l) ++ page ∷ []
unfolding move_to_end
pages_of-move_to_end page [] d h = cc
pages_of-move_to_end page (x ∷ l) d h = elim (Bool-cases (x.data_of == page)) [
  | inl e ↦
      let same : x.data_of ≡ page = (==_iff x.data_of page).0 e in
      let absent : has page (pages_of l) ≡ false =
        ap (λ (p : ℕ). has p (pages_of l)) (sym same) ∙ d.0 in
      rw (e, without_absent page (pages_of l) absent, map-append_one l x, same)
  | inr e ↦
      let later : has page (pages_of l) ≡ true = ground arith in
      rw e (ap (◌∷◌ x.data_of) (pages_of-move_to_end page l d.1 later))
]

pub length-pages_of : (l : List Node) → length (pages_of l) ≡ length l
length-pages_of [] = refl
length-pages_of (x ∷ l) = ap suc (length-pages_of l)

module _ (n page : ℕ) (l : List ℕ) (q : Queue) (h : Holds (suc n) l q) where
  pages-IsDistinct : IsDistinct (pages_of q.nodes)
  pages-IsDistinct = rw h.pages (oldest_first-IsDistinct _ (take-IsDistinct (suc n) l h.distinct))

  -- The test of `switchQueue`: whether the page is among the last `suc n`.
  found_lem : has_data page q.nodes ≡ has page (take (suc n) l)
  found_lem =
      has_data-has page q.nodes
      ∙ ap (λ (p : List ℕ). has page p) h.pages
      ∙ has-oldest_first page (take (suc n) l)

  -- A hit moves the page to the end of the queue.
  hit-Holds :
      has page (take (suc n) l) ≡ true
      → Holds (suc n) (touch page l) (record q { nodes = move_to_end page q.nodes })
  hit-Holds e = record {
    frames = move_to_end-IsFrames (suc n) page q h.frames;
    pages =
        pages_of-move_to_end page q.nodes pages-IsDistinct
          (ap (λ (p : List ℕ). has page p) h.pages ∙ has-oldest_first page (take (suc n) l) ∙ e)
        ∙ rw (h.pages, without-oldest_first page (take (suc n) l))
            (ap oldest_first (sym (take-touch_hit (suc n) page l h.distinct e)));
    distinct = touch-IsDistinct page l h.distinct;
  }

  -- The pages that stay in memory when a new one comes in.
  staying :
      (if q.length == suc n then rest_of (pages_of q.nodes) else pages_of q.nodes)
      ≡ oldest_first (take n l)
  staying = elim (Bool-cases (q.length == suc n)) [
    | inl full ↦
        let (x, e) =
          oldest_first-take n l (omega (arith, sizes, (==_iff q.length (suc n)).0 full)) in
        rw (full, h.pages, e)
    | inr free ↦
        rw (free, h.pages, take_short n l (ground (arith, sizes, length-take_le (suc n) l)))
  ]
    where
      sizes : q.length ≡ length (take (suc n) l)
      sizes =
          h.frames.size
          ∙ sym (length-pages_of q.nodes)
          ∙ ap (length {0}) h.pages
          ∙ length-oldest_first (take (suc n) l)

  -- A page fault puts it at the end.
  miss-Holds :
      has page (take (suc n) l) ≡ false
      → (q' : Queue) × (push_queue q page ≡ some q') × Holds (suc n) (touch page l) q'
  miss-Holds e =
      let (q', eq, (good, pages)) = push_queue_lem (suc n) page q (omega arith) h.frames in
      (
        q',
        eq,
        record {
          frames = good;
          pages = pages ∙ rw staying (ap oldest_first (sym (take-touch_miss n page l e)));
          distinct = touch-IsDistinct page l h.distinct;
        },
      )

move_to_end_absent : (page : ℕ) (l : List Node) → has_data page l ≡ false → move_to_end page l ≡ l
unfolding move_to_end has_data
move_to_end_absent page [] h = refl
move_to_end_absent page (x ∷ l) h = ground (arith, move_to_end_absent page l)

-- One round of the loop: whatever the rows so far, it is defined, counts a page fault exactly if the
-- page is not among the last `suc n`, and leaves the last pages in the frames.
lru_step_lem :
    (n page : ℕ) (l : List ℕ) (q : Queue) (faults : ℕ) (rows : List Row)
    → Holds (suc n) l q
    → (q' : Queue) × (rows' : List Row) × (lru_step
          (suc n)
          page
          (record { frames = some q; faults = faults; rows = rows })
        ≡ some (record {
          frames = some q';
          faults = faults + (if has page (take (suc n) l) then 0 else 1);
          rows = rows';
        }))
      × Holds (suc n) (touch page l) q'
unfolding lru_step switch_queue page_fault push_frame
lru_step_lem n page l q faults rows h = elim (Bool-cases (has page (take (suc n) l))) [
  | inl e ↦ (
    record q { nodes = move_to_end page q.nodes },
    hit page ∷ rows,
    rw (found_lem n page l q h, e)
        (ap
          (λ (k : ℕ). some (record {
            frames = some (record q { nodes = move_to_end page q.nodes });
            faults = k;
            rows = hit page ∷ rows;
          }))
          (omega arith)),
    hit-Holds n page l q h e,
  )
  | inr e ↦
      let (q', eq, holds) = miss-Holds n page l q h e in
      (
        q',
        fault page (print_queue (some q')) (suc n - q'.length) ∷ rows,
        rw (
          found_lem n page l q h,
          e,
          move_to_end_absent page q.nodes (found_lem n page l q h ∙ e),
          eq,
        ),
        holds,
      )
]

-- What a whole trace does: the code's `faultCount` and its frames at the end.
abbrev pub Simulates : ℕ → List ℕ → List ℕ → ℕ → Run → Type 0
Simulates n l pages faults r =
    (r.faults ≡ faults + misses (suc n) l pages)
    × (q : Queue) × (r.frames ≡ some q)
    × Holds (suc n) (recency l pages) q

each_page_lem :
    (n : ℕ) (l pages : List ℕ) (q : Queue) (faults : ℕ) (rows : List Row)
    → Holds (suc n) l q
    → (r : Run) × (each_page
          (lru_step (suc n))
          pages
          (record { frames = some q; faults = faults; rows = rows })
        ≡ some r)
      × Simulates n l pages faults r
unfolding each_page misses recency
each_page_lem n l [] q faults rows h =
    (record { frames = some q; faults = faults; rows = rows }, refl, (omega arith, q, refl, h))
each_page_lem n l (page ∷ pages) q faults rows h =
    let (q', rows', eq, holds) = lru_step_lem n page l q faults rows h in
    let (r, ran, after) =
      each_page_lem n (touch page l) pages q'
        (faults + (if has page (take (suc n) l) then 0 else 1)) rows' holds in
    (r, rw (eq, each_page) ran, (omega (arith, after.0), after.1, after.2, after.3))

start-Holds : (n : ℕ) → Holds (suc n) [] (record { nodes = []; length = 0; max_length = suc n })
start-Holds n = record {
  frames = record {
    capacity = refl;
    size = refl;
    room = omega arith;
    numbered = λ i. ground arith;
  };
  pages = refl;
  distinct = tt;
}

-- With at least one frame, `simulateLRU` is defined on every trace. Its page faults are those of the
-- specification of LRU, and at the end the frames, numbered from 1, hold the pages last used.
pub simulate_lru_lem :
    (n : ℕ) (pages : List ℕ)
    → (r : Run) × (simulate_lru pages (pos (suc n)) ≡ some r) × Simulates n [] pages 0 r
unfolding simulate_lru new_queue
simulate_lru_lem n pages = each_page_lem n [] pages _ 0 [] (start-Holds n)

-- No anomaly of Belady in `simulateLRU`: with more frames, and at least one, it counts no more page
-- faults on the same trace.
pub more_frames :
    (m n : ℕ) (pages : List ℕ) (few many : Run)
    → m ≤ n
    → simulate_lru pages (pos (suc m)) ≡ some few
    → simulate_lru pages (pos (suc n)) ≡ some many
    → many.faults ≤ few.faults
more_frames m n pages few many h run_few run_many =
    let (r, ran, after) = simulate_lru_lem m pages in
    let (r', ran', after') = simulate_lru_lem n pages in
    let same : r.faults ≡ few.faults = ap (λ (o : Option Run). faults_of o) (sym ran ∙ run_few) in
    let same' : r'.faults ≡ many.faults =
      ap (λ (o : Option Run). faults_of o) (sym ran' ∙ run_many) in
    omega
      (arith, same, same', after.0, after'.0, misses_mono (suc m) (suc n) [] pages (omega arith))
  where
    faults_of : Option Run → ℕ
    faults_of none = 0
    faults_of (some r) = r.faults
