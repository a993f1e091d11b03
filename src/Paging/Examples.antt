-- ===== src/Paging/Examples.antt =====
-- Runs of the page replacement of lab2/2-4.c and lab2/queue.h.
use xjtu_oslab.Base.{none, ◌*◌, ◌%◌, ◌≤◌, ℕ, ◌≡◌, refl, arith, List, [], ◌∷◌, Option, some, pos}
use xjtu_oslab.Paging.Queue.{
  Queue, new_queue, push_queue, push_queue_with_id, pop_queue, pop_nodes, replace_node, has_data,
  in_queue, move_to_end, switch_queue, insert_node, insert_all, sort_queue, push_all, print_nodes,
  print_queue,
}
use xjtu_oslab.Paging.Main.{
  Exit, main, each_index, generate_random_pages, fill_pages, choose_algorithm,
}
use xjtu_oslab.Paging.Dialogue.{Ends, main_total}
use xjtu_oslab.Paging.Random.{random_faults}
use xjtu_oslab.Paging.Freeing.{free_queue_lem}
use xjtu_oslab.Paging.Queue.{free_queue}
use xjtu_oslab.Paging.Simulate.{count_of}
use xjtu_oslab.Paging.Simulate.{
  Run, page_fault, push_frame, fifo_step, lru_step, each_page, simulate_fifo, simulate_lru,
}
use xjtu_oslab.Paging.Frames.{IsFrames}
use xjtu_oslab.Paging.Sorted.{Sorted, sort_queue_lem}
use xjtu_oslab.Paging.Lru.{Simulates, simulate_lru_lem, more_frames}

-- The trace of the textbooks on which FIFO is worse with four frames than with three.
abbrev trace : List ℕ
trace = 1 ∷ 2 ∷ 3 ∷ 4 ∷ 1 ∷ 2 ∷ 5 ∷ 1 ∷ 2 ∷ 3 ∷ 4 ∷ 5 ∷ []

abbrev faults_of : Option Run → ℕ
faults_of none = 0
faults_of (some r) = r.faults

fifo_three : faults_of (simulate_fifo trace (pos 3)) ≡ 9
unfolding simulate_fifo each_page fifo_step page_fault push_frame new_queue push_queue
    push_queue_with_id pop_queue pop_nodes replace_node has_data in_queue
fifo_three = refl

fifo_four : faults_of (simulate_fifo trace (pos 4)) ≡ 10
unfolding simulate_fifo each_page fifo_step page_fault push_frame new_queue push_queue
    push_queue_with_id pop_queue pop_nodes replace_node has_data in_queue
fifo_four = refl

-- Without frames `newQueue` returns NULL, and the first page fault reads through it.
no_frames : simulate_fifo trace (pos 0) ≡ none
unfolding simulate_fifo each_page fifo_step page_fault push_frame new_queue in_queue
no_frames = refl

abbrev run_three : Run
run_three = (simulate_lru_lem 2 trace).0

abbrev run_four : Run
run_four = (simulate_lru_lem 3 trace).0

lru_three : faults_of (simulate_lru trace (pos 3)) ≡ 10
unfolding simulate_lru each_page lru_step page_fault push_frame new_queue push_queue
    push_queue_with_id pop_queue pop_nodes replace_node has_data switch_queue move_to_end
lru_three = refl

lru_four : faults_of (simulate_lru trace (pos 4)) ≡ 8
unfolding simulate_lru each_page lru_step page_fault push_frame new_queue push_queue
    push_queue_with_id pop_queue pop_nodes replace_node has_data switch_queue move_to_end
lru_four = refl

simulate_lru_lem_example :
    (r : Run) × (simulate_lru trace (pos 3) ≡ some r) × Simulates 2 [] trace 0 r
simulate_lru_lem_example = simulate_lru_lem 2 trace

more_frames_example : run_four.faults ≤ run_three.faults
more_frames_example =
    more_frames 2 3 trace run_three run_four (omega arith) (simulate_lru_lem 2 trace).1
      (simulate_lru_lem 3 trace).1

abbrev full_frames : Queue
full_frames = record {
  nodes = record { id = 1; data_of = 7 } ∷ record { id = 2; data_of = 5 } ∷ [];
  length = 2;
  max_length = 2;
}

full_frames-IsFrames : IsFrames 2 full_frames
full_frames-IsFrames = record {
  capacity = refl;
  size = refl;
  room = omega arith;
  numbered = λ i. ground arith;
}

-- The frames are printed in the order of their numbers.
printed :
    print_queue (
      some (record full_frames {
        nodes = record { id = 2; data_of = 5 } ∷ record { id = 1; data_of = 9 } ∷ [];
      }))
    ≡ 9 ∷ 5 ∷ []
unfolding print_queue print_nodes sort_queue insert_all insert_node push_all push_queue_with_id
printed = refl

-- After a page fault the oldest frame stands at the end.
abbrev rotated : Queue
rotated = record full_frames {
  nodes = record { id = 2; data_of = 5 } ∷ record { id = 1; data_of = 9 } ∷ [];
}

sort_queue_lem_example : (q' : Queue) × (sort_queue (some rotated) ≡ some q') × Sorted rotated q'
sort_queue_lem_example = sort_queue_lem rotated refl

free_queue_lem_example : free_queue (some rotated) ≡ some rotated.nodes
free_queue_lem_example = free_queue_lem rotated

-- A trace of ten random pages on three frames by LRU.
main_total_example :
    (e : Exit) × (main (λ i. 7 * i) (λ i. 0) (pos 10) (pos 3) 1 2 ≡ some e)
    × Ends 2
        (each_index (λ i. (7 * i) % 10) 0 (count_of (pos 10)))
        (each_index (λ i. 0) 0 (count_of (pos 10)))
        1
        2
        e
main_total_example = main_total (λ i. 7 * i) (λ i. 0) (pos 10) 2 1 2 (omega arith)

-- One page more than the array holds.
overrun : main (λ i. 7 * i) (λ i. 0) (pos 101) (pos 3) 1 2 ≡ none
unfolding main generate_random_pages fill_pages choose_algorithm
overrun = refl

abbrev random_trace : List ℕ
random_trace = 0 ∷ 7 ∷ 4 ∷ 1 ∷ 8 ∷ []

random_trace_generated : generate_random_pages (λ i. 7 * i) (pos 5) ≡ some random_trace
unfolding generate_random_pages fill_pages each_index
random_trace_generated = refl

random_faults_example : (simulate_lru_lem 9 random_trace).0.faults ≤ 10
random_faults_example =
    random_faults (λ i. 7 * i) (pos 5) random_trace 9 (simulate_lru_lem 9 random_trace).0
      (omega arith) random_trace_generated (simulate_lru_lem 9 random_trace).1
