-- ===== src/Paging/Simulate.antt =====
-- lab2/2-4.c, lines 69 to 125: the two simulations. The printed table is a list of rows.
use xjtu_oslab.Base.{ℕ, ◌+◌, ◌-◌, List, [], ◌∷◌, Option, none, some, ℤ, pos, negsuc, if◌then◌else◌}
use xjtu_oslab.Paging.Queue.{Queue, new_queue, push_queue, in_queue, switch_queue, print_queue}

-- A page that is in memory; or a page fault, with the pages in the frames and the number of `X`.
pub data Row : Type 0 where
  hit : ℕ → Row
  fault : ℕ → List ℕ → ℕ → Row

-- The locals of the loop, and the rows printed so far, the last first.
pub record Run : Type 0 where
  pub frames : Option Queue
  pub faults : ℕ
  pub rows : List Row

-- The part of the loops behind `if (!found)`. `none` where the code would read through NULL.
unfoldable pub page_fault : ℕ → ℕ → Option Queue → Run → Option Run
page_fault frame_count page none r = none
page_fault frame_count page (some q) r = some (record {
  frames = some q;
  faults = r.faults + 1;
  rows = fault page (print_queue (some q)) (frame_count - q.length) ∷ r.rows;
})

unfoldable pub push_frame : Option Queue → ℕ → Option Queue
push_frame none page = none
push_frame (some q) page = push_queue q page

unfoldable pub fifo_step : ℕ → ℕ → Run → Option Run
fifo_step frame_count page r =
    if in_queue r.frames page
    then some (record r { rows = hit page ∷ r.rows })
    else page_fault frame_count page (push_frame r.frames page) r

unfoldable pub lru_step : ℕ → ℕ → Run → Option Run
lru_step frame_count page r =
    let (found, frames) = switch_queue r.frames page in
    if found
    then some (record r { frames = frames; rows = hit page ∷ r.rows })
    else page_fault frame_count page (push_frame frames page) r

-- The loop over the pages.
unfoldable pub each_page : (ℕ → Run → Option Run) → List ℕ → Run → Option Run
each_page step [] r = some r
each_page step (page ∷ pages) r = elim (step page r) [
  | none ↦ none
  | some r' ↦ each_page step pages r'
]

-- The frames of `newQueue(frameCount)`.
abbrev pub started : ℤ → Run
started frame_count = record { frames = new_queue frame_count; faults = 0; rows = [] }

abbrev pub count_of : ℤ → ℕ
count_of (pos n) = n
count_of (negsuc n) = 0

unfoldable pub simulate_fifo : List ℕ → ℤ → Option Run
simulate_fifo pages frame_count =
    each_page (fifo_step (count_of frame_count)) pages (started frame_count)

unfoldable pub simulate_lru : List ℕ → ℤ → Option Run
simulate_lru pages frame_count =
    each_page (lru_step (count_of frame_count)) pages (started frame_count)
