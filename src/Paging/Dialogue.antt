-- ===== src/Paging/Dialogue.antt =====
-- The dialogue of lab2/2-4.c ends for every input that fits the array.
use xjtu_oslab.Base.{
  ℕ, suc, ◌≤◌, ◌≡◌, ◌≢◌, refl, List, [], some, ℤ, pos, false, Bool-cases, ltb, ◌==◌, ==_iff, inl,
  inr, ◌%◌, arith,
}
use xjtu_oslab.Paging.Simulate.{Run, count_of}
use xjtu_oslab.Paging.Main.{
  each_index, fill_pages, generate_random_pages, max_pages, Exit, invalid_source, invalid_algorithm,
  simulated, simulated_run, choose_algorithm, main,
}
use xjtu_oslab.Paging.Lru.{Simulates, simulate_lru_lem}
use xjtu_oslab.Paging.Fifo.{Serves, simulate_fifo_lem}

-- How `main` ends after the second choice, with `n + 1` frames.
pub data Answers (n : ℕ) (pages : List ℕ) (choice : ℕ) : Exit → Type 0 where
  by_fifo : {r : Run} → choice ≡ 1 → Serves n [] pages 0 r → Answers n pages choice (simulated r)
  by_lru : {r : Run} → choice ≡ 2 → Simulates n [] pages 0 r → Answers n pages choice (simulated r)
  by_none : choice ≢ 1 → choice ≢ 2 → Answers n pages choice invalid_algorithm

-- How it ends after both.
pub data Ends (n : ℕ) (random entered : List ℕ) (choice choice' : ℕ) : Exit → Type 0 where
  random_pages :
      {e : Exit} → choice ≡ 1 → Answers n random choice' e → Ends n random entered choice choice' e
  entered_pages :
      {e : Exit} → choice ≡ 2 → Answers n entered choice' e → Ends n random entered choice choice' e
  no_pages : choice ≢ 1 → choice ≢ 2 → Ends n random entered choice choice' invalid_source

choose_algorithm_lem :
    (n choice : ℕ) (pages : List ℕ)
    → (e : Exit) × (choose_algorithm choice (pos (suc n)) (some pages) ≡ some e)
      × Answers n pages choice e
unfolding choose_algorithm simulated_run
choose_algorithm_lem n choice pages = elim (Bool-cases (choice == 1)) [
  | inl one ↦
      let (r, ran, serves) = simulate_fifo_lem n pages in
      (simulated r, rw (one, ran) refl, by_fifo ((==_iff choice 1).0 one) serves)
  | inr not_one ↦ elim (Bool-cases (choice == 2)) [
    | inl two ↦
        let (r, ran, simulates) = simulate_lru_lem n pages in
        (simulated r, rw (not_one, two, ran) refl, by_lru ((==_iff choice 2).0 two) simulates)
    | inr not_two ↦
        (invalid_algorithm, rw (not_one, not_two) refl, by_none (ground arith) (ground arith))
  ]
]

fill_pages_lem :
    (page : ℕ → ℕ) (page_count : ℤ)
    → count_of page_count ≤ max_pages
    → fill_pages page page_count ≡ some (each_index page 0 (count_of page_count))
unfolding fill_pages
fill_pages_lem page page_count h = rw (fits h) refl
  where
    fits : count_of page_count ≤ max_pages → ltb max_pages (count_of page_count) ≡ false
    fits h = ground arith

-- With at least one frame and at most 100 pages `main` never leaves the array, never reads through
-- NULL, and ends: with the run of FIFO or of LRU on the random or the entered pages, whose page faults
-- and frames are those of the specification, or at the first choice that is neither 1 nor 2.
pub main_total :
    (rand entered : ℕ → ℕ) (page_count : ℤ) (n choice choice' : ℕ)
    → count_of page_count ≤ max_pages
    → (e : Exit) × (main rand entered page_count (pos (suc n)) choice choice' ≡ some e)
      × Ends n
          (each_index (λ i. rand i % 10) 0 (count_of page_count))
          (each_index entered 0 (count_of page_count))
          choice
          choice'
          e
unfolding main generate_random_pages
main_total rand entered page_count n choice choice' h = elim (Bool-cases (choice == 1)) [
  | inl one ↦
      let (e, ran, answers) =
        choose_algorithm_lem n choice' (each_index (λ i. rand i % 10) 0 (count_of page_count)) in
      (
        e,
        rw (one, fill_pages_lem (λ i. rand i % 10) page_count h) ran,
        random_pages ((==_iff choice 1).0 one) answers,
      )
  | inr not_one ↦ elim (Bool-cases (choice == 2)) [
    | inl two ↦
        let (e, ran, answers) =
          choose_algorithm_lem n choice' (each_index entered 0 (count_of page_count)) in
        (
          e,
          rw (not_one, two, fill_pages_lem entered page_count h) ran,
          entered_pages ((==_iff choice 2).0 two) answers,
        )
    | inr not_two ↦
        (invalid_source, rw (not_one, not_two) refl, no_pages (ground arith) (ground arith))
  ]
]
