-- ===== src/Paging/Frames.antt =====
-- The queue of lab2/queue.h as a set of numbered frames.
use xjtu_oslab.Base.{
  length-append, ℕ, zero, suc, ◌+◌, ◌-◌, ◌≤◌, ◌<◌, ◌≡◌, refl, arith, List, [], ◌∷◌, ◌++◌, Option,
  some, Bool, true, false, ◌==◌, leb, if◌then◌else◌, ◌&&◌, ◌||◌, map, sum_by, sum_by-append,
  Bool-cases, inl, inr, ap, ◌∙◌,
}
use xjtu_oslab.Base as Base
use xjtu_oslab.Paging.Queue.{
  Node, Queue, push_queue, push_queue_with_id, pop_queue, pop_nodes, replace_node, move_to_end,
}

-- A node for frame `i`: 1 or 0.
abbrev pub in_frame : ℕ → Node → ℕ
in_frame i node = if node.id == i then 1 else 0

abbrev pub pages_of : List Node → List ℕ
pages_of nodes = map (λ node. node.data_of) nodes

-- `n` frames of which the first `length` are in use, each by one node.
pub record IsFrames (n : ℕ) (q : Queue) : Type 0 where
  pub capacity : q.max_length ≡ n
  pub size : q.length ≡ Base.length q.nodes
  pub room : q.length ≤ n
  pub numbered :
      (i : ℕ) → sum_by (in_frame i) q.nodes ≡ (if leb 1 i && leb i q.length then 1 else 0)

==_refl : (a b : ℕ) → a ≡ b → (a == b) ≡ true
==_refl a b e = ground arith

-- `l` without its first element.
abbrev pub rest_of : List ℕ → List ℕ
rest_of [] = []
rest_of (x ∷ l) = l

pub map-append_one :
    (l : List Node) (x : Node) → pages_of (l ++ x ∷ []) ≡ pages_of l ++ x.data_of ∷ []
map-append_one [] x = refl
map-append_one (y ∷ l) x = ap (◌∷◌ y.data_of) (map-append_one l x)

abbrev pub Pushed : ℕ → ℕ → Queue → Queue → Type 0
Pushed n page q q' =
    IsFrames n q'
    × (pages_of q'.nodes
        ≡ (if q.length == n then rest_of (pages_of q.nodes) else pages_of q.nodes) ++ page ∷ [])

push_free :
    (n page : ℕ) (q : Queue)
    → IsFrames n q
    → (q.length == n) ≡ false
    → Pushed n page q (push_queue_with_id q page (q.length + 1))
unfolding push_queue_with_id
push_free n page q f e = (
  record {
    capacity = f.capacity;
    size = omega (arith, f.size, length-append q.nodes (new ∷ []));
    room = ground arith;
    numbered = λ i. ground (arith, sum_by-append (in_frame i) q.nodes (new ∷ []), f.numbered i);
  },
  rw e (map-append_one q.nodes new),
)
  where
    new : Node
    new = record { id = q.length + 1; data_of = page }

push_full :
    (n page : ℕ) (q : Queue) (l : List Node)
    → q.nodes ≡ l
    → 0 < n
    → IsFrames n q
    → q.length ≡ n
    → (q' : Queue) × (replace_node page (pop_nodes l q) ≡ some q')
      × IsFrames n q'
      × (pages_of q'.nodes ≡ rest_of (pages_of l) ++ page ∷ [])
unfolding push_queue_with_id pop_nodes replace_node
push_full n page q [] e h f full = absurd (omega (arith, ap (Base.length {0}) e, f.size))
push_full n page q (x ∷ l) e h f full = (
  record q { nodes = l ++ new ∷ []; length = q.length - 1 + 1 },
  refl,
  record {
    capacity = f.capacity;
    size = omega (arith, ap (Base.length {0}) e, f.size, length-append l (new ∷ []));
    room = omega arith;
    numbered = λ i.
        ground (
          arith,
          sum_by-append (in_frame i) l (new ∷ []),
          f.numbered i,
          ap (sum_by (in_frame i)) e,
        );
  },
  map-append_one l new,
)
  where
    new : Node
    new = record { id = x.id; data_of = page }

-- `pushQueue` on a queue of frames is defined. The page goes to the end; where all frames are in use
-- the oldest page leaves and its frame is used again.
pub push_queue_lem :
    (n page : ℕ) (q : Queue)
    → 0 < n
    → IsFrames n q
    → (q' : Queue) × (push_queue q page ≡ some q') × Pushed n page q q'
unfolding push_queue
push_queue_lem n page q h f = elim (Bool-cases (q.length == q.max_length)) [
  | inl full ↦
      let same : q.length ≡ n = ground (arith, f.capacity) in
      let (q', eq, good, pages) = push_full n page q q.nodes refl h f same in
      (q', rw full (unfold pop_queue in eq), (good, rw (==_refl q.length n same) pages))
  | inr free ↦ (
    push_queue_with_id q page (q.length + 1),
    rw free,
    push_free n page q f (ground (arith, f.capacity)),
  )
]

-- `move_to_end` keeps the nodes, up to their order.
sum_by-move_to_end :
    (w : Node → ℕ) (page : ℕ) (l : List Node) → sum_by w (move_to_end page l) ≡ sum_by w l
unfolding move_to_end
sum_by-move_to_end w page [] = refl
sum_by-move_to_end w page (x ∷ l) =
    ground (arith, sum_by-append w l (x ∷ []), sum_by-move_to_end w page l)

length-move_to_end : (page : ℕ) (l : List Node) → Base.length (move_to_end page l) ≡ Base.length l
unfolding move_to_end
length-move_to_end page [] = refl
length-move_to_end page (x ∷ l) =
    ground (arith, length-append l (x ∷ []), length-move_to_end page l)

-- A hit keeps the frames: their numbers and their count.
pub move_to_end-IsFrames :
    (n page : ℕ) (q : Queue)
    → IsFrames n q
    → IsFrames n (record q { nodes = move_to_end page q.nodes })
move_to_end-IsFrames n page q f = record {
  capacity = f.capacity;
  size = omega (arith, f.size, length-move_to_end page q.nodes);
  room = f.room;
  numbered = λ i. sum_by-move_to_end (in_frame i) page q.nodes ∙ f.numbered i;
}
