-- ===== src/Paging/Sorted.antt =====
-- `sortQueue` of lab2/queue.h.
use mathlib.Core.List.{append-nil, append_assoc}
use mathlib.Core.List.Perm
use xjtu_oslab.Base.{
  ℕ, suc, ◌+◌, ◌≤◌, ◌<◌, ◌≡◌, refl, arith, List, [], ◌∷◌, ◌++◌, some, Perm, ltb, length, All,
  All-mono, ap, ◌∙◌, Bool-cases, inl, inr,
}
use xjtu_oslab.Paging.Queue.{
  Node, Queue, push_queue_with_id, push_all, copy_queue, insert_node, insert_all, sort_queue,
}

-- By rising id.
abbrev pub IsOrdered : List Node → Type 0
IsOrdered [] = Unit
IsOrdered (x ∷ l) = All (λ y. x.id ≤ y.id) l × IsOrdered l

insert_node-perm : (x : Node) (l : List Node) → Perm (insert_node x l) (x ∷ l)
unfolding insert_node
insert_node-perm x [] = Perm.refl _
insert_node-perm x (y ∷ l) = elim (Bool-cases (ltb y.id x.id)) [
  | inl e ↦ rw e (Perm.trans (Perm.cons y (insert_node-perm x l)) (Perm.swap _ _ _))
  | inr e ↦ rw e (Perm.refl _)
]

insert_node-All :
    (P : Node → Type 0) (x : Node) (l : List Node) → P x → All P l → All P (insert_node x l)
unfolding insert_node
insert_node-All P x [] p h = (p, tt)
insert_node-All P x (y ∷ l) p h = elim (Bool-cases (ltb y.id x.id)) [
  | inl e ↦ rw e (h.0, insert_node-All P x l p h.1)
  | inr e ↦ rw e (p, h)
]

insert_node-IsOrdered : (x : Node) (l : List Node) → IsOrdered l → IsOrdered (insert_node x l)
unfolding insert_node
insert_node-IsOrdered x [] h = (tt, tt)
insert_node-IsOrdered x (y ∷ l) h = elim (Bool-cases (ltb y.id x.id)) [
  | inl e ↦
      rw e
        (insert_node-All (λ z. y.id ≤ z.id) x l (ground arith) h.0, insert_node-IsOrdered x l h.1)
  | inr e ↦
      let first : x.id ≤ y.id = ground arith in
      rw e ((first, All-mono {Q = λ z. x.id ≤ z.id} (λ z k. omega arith) l h.0), h)
]

insert_all-IsOrdered : (l sorted : List Node) → IsOrdered sorted → IsOrdered (insert_all l sorted)
unfolding insert_all
insert_all-IsOrdered [] sorted h = h
insert_all-IsOrdered (x ∷ l) sorted h =
    insert_all-IsOrdered l (insert_node x sorted) (insert_node-IsOrdered x sorted h)

insert_all-perm : (l sorted : List Node) → Perm (insert_all l sorted) (l ++ sorted)
unfolding insert_all
insert_all-perm [] sorted = Perm.refl sorted
insert_all-perm (x ∷ l) sorted = Perm.trans (insert_all-perm l (insert_node x sorted)) (moved l)
  where
    moved : (l : List Node) → Perm (l ++ insert_node x sorted) (x ∷ l ++ sorted)
    moved [] = insert_node-perm x sorted
    moved (y ∷ l) = Perm.trans (Perm.cons y (moved l)) (Perm.swap _ _ _)

length-insert_node : (x : Node) (l : List Node) → length (insert_node x l) ≡ suc (length l)
unfolding insert_node
length-insert_node x [] = refl
length-insert_node x (y ∷ l) = ground (arith, length-insert_node x l)

length-insert_all : (l sorted : List Node) → length (insert_all l sorted) ≡ length l + length sorted
unfolding insert_all
length-insert_all [] sorted = omega arith
length-insert_all (x ∷ l) sorted =
    omega (arith, length-insert_all l (insert_node x sorted), length-insert_node x sorted)

-- A queue by its parts.
queue_of : ℕ → List Node → ℕ → Queue
queue_of capacity nodes n = record { nodes = nodes; length = n; max_length = capacity }

-- Nodes that are pushed with their ids go to the end, and are counted.
push_all_lem :
    (l : List Node) (capacity : ℕ) (nodes : List Node) (n : ℕ)
    → push_all (queue_of capacity nodes n) l ≡ queue_of capacity (nodes ++ l) (n + length l)
unfolding push_all push_queue_with_id queue_of
push_all_lem [] capacity nodes n =
    rw (append-nil nodes) (ap (λ (k : ℕ). queue_of capacity nodes k) (omega arith))
push_all_lem (x ∷ l) capacity nodes n =
    push_all_lem l capacity (nodes ++ x ∷ []) (n + 1)
    ∙ rw (append_assoc nodes (x ∷ []) l)
        (ap (λ (k : ℕ). queue_of capacity (nodes ++ x ∷ l) k) (omega arith))

-- The queue after `sortQueue`.
pub record Sorted (q q' : Queue) : Type 0 where
  pub ordered : IsOrdered q'.nodes
  pub same_nodes : Perm q'.nodes q.nodes
  pub same_length : q'.length ≡ q.length
  pub same_capacity : q'.max_length ≡ q.max_length

short-IsOrdered : (l : List Node) → length l < 2 → IsOrdered l
short-IsOrdered [] h = tt
short-IsOrdered (x ∷ []) h = (tt, tt)
short-IsOrdered (x ∷ y ∷ l) h = absurd (omega arith)

-- On a queue whose length counts its nodes `sortQueue` is defined. It returns a queue with the same
-- nodes in the order of their ids, and with the same length and capacity.
pub sort_queue_lem :
    (q : Queue)
    → q.length ≡ length q.nodes
    → (q' : Queue) × (sort_queue (some q) ≡ some q') × Sorted q q'
unfolding sort_queue copy_queue queue_of
sort_queue_lem q size = elim (Bool-cases (ltb q.length 2)) [
  | inl short ↦ (
    queue_of q.max_length q.nodes (0 + length q.nodes),
    rw short (ap some (push_all_lem q.nodes q.max_length [] 0)),
    record {
      ordered = short-IsOrdered q.nodes (ground arith);
      same_nodes = Perm.refl q.nodes;
      same_length = omega arith;
      same_capacity = refl;
    },
  )
  | inr long ↦
      let sorted = insert_all q.nodes [] in
      (
        queue_of q.max_length sorted (0 + length sorted),
        rw long (ap some (push_all_lem sorted q.max_length [] 0)),
        record {
          ordered = insert_all-IsOrdered q.nodes [] tt;
          same_nodes = rw (append-nil q.nodes) at (insert_all-perm q.nodes []);
          same_length = omega (arith, length-insert_all q.nodes []);
          same_capacity = refl;
        },
      )
]
