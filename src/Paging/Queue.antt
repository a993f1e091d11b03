-- ===== src/Paging/Queue.antt =====
-- lab2/queue.h. A `Queue` is the list of the nodes behind its sentinel `head`, in the order of their
-- links; `tail` is the last of them, or the sentinel when there is none. An `int` that is only
-- compared for equality is its bit pattern, and every `malloc` succeeds.
use mathlib.Core.Option
use xjtu_oslab.Base.{
  ℕ, zero, suc, ◌+◌, ◌-◌, List, [], ◌∷◌, ◌++◌, Option, none, some, ℤ, pos, Bool, true, false,
  length, ◌==◌, ltb, if◌then◌else◌, ◌||◌, map,
}

pub record Node : Type 0 where
  pub id : ℕ
  pub data_of : ℕ

pub record Queue : Type 0 where
  pub nodes : List Node
  pub length : ℕ
  pub max_length : ℕ

-- NULL for a length that is not positive.
unfoldable pub new_queue : ℤ → Option Queue
new_queue (pos (suc n)) = some (record { nodes = []; length = 0; max_length = suc n })
new_queue _ = none

unfoldable pub push_queue_with_id : Queue → ℕ → ℕ → Queue
push_queue_with_id q value id = record q {
  nodes = q.nodes ++ record { id = id; data_of = value } ∷ [];
  length = q.length + 1;
}

-- The loop of `copyQueue`.
unfoldable pub push_all : Queue → List Node → Queue
push_all q [] = q
push_all q (node ∷ next) = push_all (push_queue_with_id q node.data_of node.id) next

-- A queue that is not NULL has a positive `maxLength`.
unfoldable pub copy_queue : Option Queue → Option Queue
unfolding push_all push_queue_with_id
copy_queue none = none
copy_queue (some q) =
    some (push_all (record { nodes = []; length = 0; max_length = q.max_length }) q.nodes)

unfoldable pub is_nil : List Node → Bool
is_nil [] = true
is_nil (node ∷ next) = false

unfoldable pub is_queue_empty : Option Queue → Bool
unfolding is_nil
is_queue_empty none = true
is_queue_empty (some q) = is_nil q.nodes

unfoldable pub pop_nodes : List Node → Queue → Option (Node × Queue)
pop_nodes [] q = none
pop_nodes (node ∷ next) q = some (node, record q { nodes = next; length = q.length - 1 })

-- The first node, or NULL.
unfoldable pub pop_queue : Queue → Option (Node × Queue)
pop_queue q = pop_nodes q.nodes q

-- The loop of `freeQueue`, with the nodes in the order in which they are freed. `none` where the fuel
-- is used up, which `free_queue` never sees: every round pops a node.
unfoldable pub free_loop : ℕ → Queue → Option (List Node)
unfolding is_queue_empty pop_queue
free_loop zero q = none
free_loop (suc fuel) q = elim (pop_queue q) [
  | none ↦ some []
  | some (node, q') ↦ Option.map (◌∷◌ node) (free_loop fuel q')
]

unfoldable pub free_queue : Option Queue → Option (List Node)
unfolding free_loop
free_queue none = some []
free_queue (some q) = free_loop (length q.nodes + 1) q

-- `pushQueue` on a full queue: the new node takes the frame of the one that leaves. `none` where the
-- code would read through NULL.
unfoldable pub replace_node : ℕ → Option (Node × Queue) → Option Queue
replace_node value none = none
replace_node value (some (node, q)) = some (push_queue_with_id q value node.id)

unfoldable pub push_queue : Queue → ℕ → Option Queue
push_queue q value =
    if q.length == q.max_length
    then replace_node value (pop_queue q)
    else some (push_queue_with_id q value (q.length + 1))

unfoldable pub has_data : ℕ → List Node → Bool
has_data value [] = false
has_data value (node ∷ next) = (node.data_of == value) || has_data value next

unfoldable pub in_queue : Option Queue → ℕ → Bool
in_queue none value = false
in_queue (some q) value = has_data value q.nodes

-- The first node with that data, moved to the end.
unfoldable pub move_to_end : ℕ → List Node → List Node
move_to_end value [] = []
move_to_end value (node ∷ next) =
    if node.data_of == value then next ++ node ∷ [] else node ∷ move_to_end value next

-- The result says whether there was such a node.
unfoldable pub switch_queue : Option Queue → ℕ → Bool × Option Queue
switch_queue none value = (false, none)
switch_queue (some q) value =
    (has_data value q.nodes, some (record q { nodes = move_to_end value q.nodes }))

-- One round of the insertion in `sortQueue`, into the sorted chain.
unfoldable pub insert_node : Node → List Node → List Node
insert_node current [] = current ∷ []
insert_node current (node ∷ next) =
    if ltb node.id current.id then node ∷ insert_node current next else current ∷ node ∷ next

-- The loop of `sortQueue`, with the chain that is sorted so far.
unfoldable pub insert_all : List Node → List Node → List Node
unfolding insert_node
insert_all [] sorted = sorted
insert_all (current ∷ rest) sorted = insert_all rest (insert_node current sorted)

-- The sorted chain is linked again behind the sentinel, and its nodes are counted.
unfoldable pub sort_queue : Option Queue → Option Queue
unfolding copy_queue insert_all push_all push_queue_with_id
sort_queue none = none
sort_queue (some q) =
    if ltb q.length 2
    then copy_queue (some q)
    else some (push_all (record q { nodes = []; length = 0 }) (insert_all q.nodes []))

-- What `printQueue` prints.
unfoldable pub print_nodes : Option Queue → List ℕ
print_nodes none = []
print_nodes (some q) = map (λ node. node.data_of) q.nodes

unfoldable pub print_queue : Option Queue → List ℕ
unfolding sort_queue print_nodes
print_queue q = print_nodes (sort_queue q)
