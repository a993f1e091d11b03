-- ===== src/Paging/Fifo.antt =====
-- `simulateFIFO` of lab2/2-4.c against the specification of FIFO.
use xjtu_oslab.Base.{
  ℕ, suc, ◌+◌, ◌-◌, ◌≡◌, refl, arith, List, [], ◌∷◌, ◌++◌, some, false, ◌==◌, if◌then◌else◌, length,
  ap, ◌∙◌, sym, Bool-cases, inl, inr, pos,
}
use xjtu_oslab.Paging.Queue.{Queue, new_queue, push_queue, has_data, in_queue, print_queue}
use xjtu_oslab.Paging.Simulate.{
  Row, Run, page_fault, push_frame, fifo_step, each_page, simulate_fifo, hit, fault,
}
use xjtu_oslab.Paging.Frames.{IsFrames, pages_of, rest_of, push_queue_lem}
use xjtu_oslab.Paging.Recency.{has}
use xjtu_oslab.Paging.Lru.{has_data-has, length-pages_of}

-- The pages in memory, the one that came in first at the front, after a use of `page`.
abbrev pub arrive : ℕ → ℕ → List ℕ → List ℕ
arrive n page l = if has page l then l else (if length l == n then rest_of l else l) ++ page ∷ []

unfoldable pub fifo_misses : ℕ → List ℕ → List ℕ → ℕ
fifo_misses n l [] = 0
fifo_misses n l (page ∷ pages) =
    (if has page l then 0 else 1) + fifo_misses n (arrive n page l) pages

unfoldable pub arrivals : ℕ → List ℕ → List ℕ → List ℕ
arrivals n l [] = l
arrivals n l (page ∷ pages) = arrivals n (arrive n page l) pages

-- The frames hold these pages.
pub record Keeps (n : ℕ) (l : List ℕ) (q : Queue) : Type 0 where
  pub frames : IsFrames n q
  pub pages : pages_of q.nodes ≡ l

module _ (n page : ℕ) (l : List ℕ) (q : Queue) (h : Keeps (suc n) l q) where
  found_lem : has_data page q.nodes ≡ has page l
  found_lem = has_data-has page q.nodes ∙ ap (λ (p : List ℕ). has page p) h.pages

  size : q.length ≡ length l
  size = h.frames.size ∙ sym (length-pages_of q.nodes) ∙ ap (length {0}) h.pages

  miss-Keeps :
      has page l ≡ false
      → (q' : Queue) × (push_queue q page ≡ some q') × Keeps (suc n) (arrive (suc n) page l) q'
  miss-Keeps e =
      let (q', eq, (good, pages)) = push_queue_lem (suc n) page q (omega arith) h.frames in
      (q', eq, record { frames = good; pages = pages ∙ rw (e, h.pages, size) refl })

  fifo_step_lem :
      (faults : ℕ) (rows : List Row)
      → (q' : Queue) × (rows' : List Row) × (fifo_step
            (suc n)
            page
            (record { frames = some q; faults = faults; rows = rows })
          ≡ some (record {
            frames = some q';
            faults = faults + (if has page l then 0 else 1);
            rows = rows';
          }))
        × Keeps (suc n) (arrive (suc n) page l) q'
  unfolding fifo_step in_queue page_fault push_frame
  fifo_step_lem faults rows = elim (Bool-cases (has page l)) [
    | inl e ↦ (
      q,
      hit page ∷ rows,
      rw (found_lem, e)
          (ap (λ (k : ℕ). some (record { frames = some q; faults = k; rows = hit page ∷ rows }))
            (omega arith)),
      rw e h,
    )
    | inr e ↦
        let (q', eq, keeps) = miss-Keeps e in
        (
          q',
          fault page (print_queue (some q')) (suc n - q'.length) ∷ rows,
          rw (found_lem, e, eq),
          keeps,
        )
  ]

-- What a whole trace does: the code's `faultCount` and its frames at the end.
abbrev pub Serves : ℕ → List ℕ → List ℕ → ℕ → Run → Type 0
Serves n l pages faults r =
    (r.faults ≡ faults + fifo_misses (suc n) l pages)
    × (q : Queue) × (r.frames ≡ some q)
    × Keeps (suc n) (arrivals (suc n) l pages) q

each_page_fifo :
    (n : ℕ) (l pages : List ℕ) (q : Queue) (faults : ℕ) (rows : List Row)
    → Keeps (suc n) l q
    → (r : Run) × (each_page
          (fifo_step (suc n))
          pages
          (record { frames = some q; faults = faults; rows = rows })
        ≡ some r)
      × Serves n l pages faults r
unfolding each_page fifo_misses arrivals
each_page_fifo n l [] q faults rows h =
    (record { frames = some q; faults = faults; rows = rows }, refl, (omega arith, q, refl, h))
each_page_fifo n l (page ∷ pages) q faults rows h =
    let (q', rows', eq, keeps) = fifo_step_lem n page l q h faults rows in
    let (r, ran, after) =
      each_page_fifo n (arrive (suc n) page l) pages q' (faults + (if has page l then 0 else 1))
        rows' keeps in
    (r, rw (eq, each_page) ran, (omega (arith, after.0), after.1, after.2, after.3))

start-Keeps : (n : ℕ) → Keeps (suc n) [] (record { nodes = []; length = 0; max_length = suc n })
start-Keeps n = record {
  frames = record {
    capacity = refl;
    size = refl;
    room = omega arith;
    numbered = λ i. ground arith;
  };
  pages = refl;
}

-- With at least one frame, `simulateFIFO` is defined on every trace. Its page faults are those of the
-- specification of FIFO, and at the end the frames, numbered from 1, hold the pages of the
-- specification, the one that came in first at the front.
pub simulate_fifo_lem :
    (n : ℕ) (pages : List ℕ)
    → (r : Run) × (simulate_fifo pages (pos (suc n)) ≡ some r) × Serves n [] pages 0 r
unfolding simulate_fifo new_queue
simulate_fifo_lem n pages = each_page_fifo n [] pages _ 0 [] (start-Keeps n)
