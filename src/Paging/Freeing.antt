-- ===== src/Paging/Freeing.antt =====
-- `freeQueue` of lab2/queue.h.
use mathlib.Core.Option
use xjtu_oslab.Base.{ℕ, zero, suc, ◌+◌, ◌-◌, ◌<◌, ◌≡◌, refl, ap, List, [], ◌∷◌, some, length, arith}
use xjtu_oslab.Paging.Queue.{Node, Queue, pop_nodes, pop_queue, free_loop, free_queue}

-- With fuel above the number of nodes the loop ends.
free_loop_lem :
    (fuel : ℕ) (nodes : List Node) (q : Queue)
    → q.nodes ≡ nodes
    → length nodes < fuel
    → free_loop fuel q ≡ some nodes
unfolding free_loop pop_queue pop_nodes
free_loop_lem zero nodes q e h = absurd (omega arith)
free_loop_lem (suc fuel) [] q e h = rw e refl
free_loop_lem (suc fuel) (node ∷ next) q e h = rw e (
    ap (Option.map (◌∷◌ node)) (
      free_loop_lem fuel next (record q { nodes = next; length = q.length - 1 }) refl
        (omega arith)))

-- `freeQueue` ends on every queue, and frees every node exactly once, in the order of the links.
pub free_queue_lem : (q : Queue) → free_queue (some q) ≡ some q.nodes
unfolding free_queue
free_queue_lem q = free_loop_lem (length q.nodes + 1) q.nodes q refl (omega arith)
