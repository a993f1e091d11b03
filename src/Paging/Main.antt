-- ===== src/Paging/Main.antt =====
-- lab2/2-4.c, lines 14 to 67: the dialogue of `main` and the random pages. What `rand` returns and what
-- is entered are functions of the number of the call; the prompts are left out.
use xjtu_oslab.Base.{
  ℕ, zero, suc, ◌%◌, List, [], ◌∷◌, Option, none, some, ℤ, ltb, ◌==◌, if◌then◌else◌, ◌+◌,
}
use xjtu_oslab.Paging.Simulate.{Run, count_of, simulate_fifo, simulate_lru}

-- The pages of the loop over `i`, from `i` on.
unfoldable pub each_index : (ℕ → ℕ) → ℕ → ℕ → List ℕ
each_index page i zero = []
each_index page i (suc n) = page i ∷ each_index page (i + 1) n

abbrev pub max_pages : ℕ
max_pages = 100

-- The first so many cells of `pages`. `none` where the loop would leave the array.
unfoldable pub fill_pages : (ℕ → ℕ) → ℤ → Option (List ℕ)
unfolding each_index
fill_pages page page_count =
    if ltb max_pages (count_of page_count)
    then none
    else some (each_index page 0 (count_of page_count))

unfoldable pub generate_random_pages : (ℕ → ℕ) → ℤ → Option (List ℕ)
unfolding fill_pages
generate_random_pages rand page_count = fill_pages (λ i. rand i % 10) page_count

-- How `main` ends.
pub data Exit : Type 0 where
  invalid_source : Exit
  invalid_algorithm : Exit
  simulated : Run → Exit

unfoldable pub simulated_run : Option Run → Option Exit
simulated_run none = none
simulated_run (some r) = some (simulated r)

-- The second choice.
unfoldable pub choose_algorithm : ℕ → ℤ → Option (List ℕ) → Option Exit
unfolding simulated_run
choose_algorithm choice frame_count none = none
choose_algorithm choice frame_count (some pages) =
    if choice == 1
    then simulated_run (simulate_fifo pages frame_count)
    else if choice == 2
    then simulated_run (simulate_lru pages frame_count)
    else some invalid_algorithm

-- The inputs in the order in which they are read, the second choice last.
unfoldable pub main : (rand entered : ℕ → ℕ) → ℤ → ℤ → ℕ → ℕ → Option Exit
unfolding choose_algorithm generate_random_pages fill_pages
main rand entered page_count frame_count choice choice' =
    if choice == 1
    then choose_algorithm choice' frame_count (generate_random_pages rand page_count)
    else if choice == 2
    then choose_algorithm choice' frame_count (fill_pages entered page_count)
    else some invalid_source
