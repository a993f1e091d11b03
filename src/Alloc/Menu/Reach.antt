-- ===== src/Alloc/Menu/Reach.antt =====
-- The states that the menu of lab2/2-3.c reaches, and what holds in all of them.
use mathlib.Core.Path.{subst}
use xjtu_oslab.Base.{
  sym, ℕ, zero, suc, ◌≤◌, ◌<◌, ◌≡◌, refl, List, [], ◌∷◌, sum_by, arith, ltb, ℤ, pos, negsuc, inl,
  inr, ap, ◌∙◌, get_elem?, some, Bool-cases, ◌==◌,
}
use xjtu_oslab.Alloc.State.{
  ok-injective, AllocatedBlock, Mem, ok, undefined, initial, init_free_block, allocated_at,
}
use xjtu_oslab.Alloc.Fit.Allocate.{IsWild, dec_IsWild}
use xjtu_oslab.Alloc.Free.Kill.{kill_process-Killed}
use xjtu_oslab.Alloc.Menu.{
  resize, set_mem_size, new_process, Command, set_size, select, spawn, kill, display, other,
  and_flag, step,
}
use xjtu_oslab.Alloc.Menu.Process.{
  request, counted, new_process-undefined, NewOutcome, new_process-NewOutcome,
  set_algorithm-IsSound,
}
use xjtu_oslab.Alloc.Invariant.{IsSound, IsWell}

-- The commands that stay inside C: all but a new process of a size that is not positive, or one
-- whose request meets `IsWild`.
abbrev pub IsSafe : Command → Mem → Type 0
IsSafe (spawn (pos size)) m = (0 < size) × ¬ IsWild (request size m) (counted m)
IsSafe (spawn (negsuc size)) m = ⊥
IsSafe _ m = Unit

-- The states that rounds of the loop of `main` lead to, by any commands.
pub data Reach : Mem → Type 0 where
  start : Reach initial
  later : {m m' : Mem} (c : Command) → Reach m → step c m ≡ ok m' → Reach m'

and_flag-IsWell : {m : Mem} → IsSound m → IsWell (and_flag m)
unfolding and_flag
and_flag-IsWell w = record {
  sound = record {
    tiled = w.tiled;
    sizes = w.sizes;
    free_within = w.free_within;
    processes = w.processes;
    newest_first = w.newest_first;
    sorted = w.sorted;
  };
  untouched = λ e. absurd (omega arith);
}

fresh-IsSound :
    (m : Mem) → m.free_block ≡ init_free_block m.mem_size → m.allocated_block_head ≡ [] → IsSound m
unfolding init_free_block
fresh-IsSound m e f = record {
  tiled = λ a. rw (e, f) (omega arith);
  sizes = rw (e, f) (omega arith);
  free_within = rw e (omega arith, tt);
  processes = rw f tt;
  newest_first = rw f tt;
  sorted = rw e (tt, tt);
}

initial-IsWell : IsWell initial
unfolding initial
initial-IsWell = record { sound = fresh-IsSound initial refl refl; untouched = λ e. (refl, refl) }

-- A new size is set only while the memory is one free block.
resize_total :
    (m : Mem) (size : ℕ)
    → m.free_block ≡ init_free_block m.mem_size
    → m.allocated_block_head ≡ []
    → (r : ℕ × Mem) × (resize size m.free_block m ≡ ok r) × IsWell r.1
unfolding resize init_free_block
resize_total m size e f = (
  (1, resized),
  subst (λ l. resize size l m ≡ ok (1, resized)) (sym e) refl,
  record { sound = fresh-IsSound resized refl f; untouched = λ k. absurd (omega arith) },
)
  where
    resized : Mem
    resized = record m { mem_size = size; free_block = init_free_block size; flag = 1 }

flagged-IsWell : {m : Mem} → IsWell m → IsWell (record m { flag = 1 })
unfolding and_flag
flagged-IsWell w = and_flag-IsWell w.sound

set_mem_size_total :
    (m : Mem) (n : ℤ) → IsWell m → (r : ℕ × Mem) × (set_mem_size n m ≡ ok r) × IsWell r.1
unfolding set_mem_size
set_mem_size_total m (negsuc n) w = elim (Bool-cases (m.flag == 0)) [
  | inl e ↦ ((1, record m { flag = 1 }), rw e, flagged-IsWell w)
  | inr e ↦ ((0, m), rw e, w)
]
set_mem_size_total m (pos n) w = elim (Bool-cases (m.flag == 0)) [
  | inl e ↦ elim (Bool-cases (ltb 0 n)) [
    | inl h ↦
        let (free, none) = w.untouched (ground arith) in
        let (r, eq, good) = resize_total m n free none in (r, rw (e, h) eq, good)
    | inr h ↦ ((1, record m { flag = 1 }), rw (e, h), flagged-IsWell w)
  ]
  | inr e ↦ ((0, m), rw e, w)
]

NewOutcome-IsSound : (size : ℕ) (m : Mem) (o : ℤ × Mem) → NewOutcome size m o → IsSound o.1
NewOutcome-IsSound size m (pos c, m') g = g.1.sound
NewOutcome-IsSound size m (negsuc c, m') g = g.1.sound

-- In a state of the invariant every safe command is defined, and leads to a state of the invariant.
pub step_total :
    (m : Mem) (c : Command) → IsWell m → IsSafe c m → (m' : Mem) × (step c m ≡ ok m') × IsWell m'
unfolding step
step_total m (set_size n) w s =
    let ((c, m'), eq, good) = set_mem_size_total m n w in (m', rw (eq, step), good)
step_total m (select n) w s = (_, refl, and_flag-IsWell (set_algorithm-IsSound n w.sound))
step_total m (spawn (pos size)) w s =
    let (o, eq, good) = new_process-NewOutcome w.sound size s.0 s.1 in
    (and_flag o.1, rw (eq, step), and_flag-IsWell (NewOutcome-IsSound size m o good))
step_total m (spawn (negsuc size)) w s = absurd s
step_total m (kill n) w s =
    let (m', eq, good) = kill_process-Killed w.sound n in
    (and_flag m', rw (eq, step), and_flag-IsWell good.sound)
step_total m display w s = (_, refl, and_flag-IsWell w.sound)
step_total m other w s = (m, refl, w)

-- In a state of the invariant a command that is not safe is undefined behaviour.
step-undefined : (m : Mem) (c : Command) → IsWell m → ¬ IsSafe c m → step c m ≡ undefined
unfolding step
step-undefined m (spawn (negsuc size)) w s = unfold new_process in refl
step-undefined m (spawn (pos zero)) w s = unfold new_process in refl
step-undefined m (spawn (pos (suc size))) w s =
    elim (dec_IsWild (request (suc size) m) (counted m)) [
      | yes wild ↦ rw (new_process-undefined w.sound (suc size) (omega arith) wild, step)
      | no tame ↦ absurd (s (omega arith, tame))
    ]
step-undefined m (set_size n) w s = absurd (s tt)
step-undefined m (select n) w s = absurd (s tt)
step-undefined m (kill n) w s = absurd (s tt)
step-undefined m display w s = absurd (s tt)
step-undefined m other w s = absurd (s tt)

dec_IsSafe : (c : Command) (m : Mem) → Dec (IsSafe c m)
dec_IsSafe (spawn (negsuc size)) m = no (λ h. h)
dec_IsSafe (spawn (pos zero)) m = no (λ h. absurd (omega arith))
dec_IsSafe (spawn (pos (suc size))) m = elim (dec_IsWild (request (suc size) m) (counted m)) [
  | yes wild ↦ no (λ h. h.1 wild)
  | no tame ↦ yes (omega arith, tame)
]
dec_IsSafe (set_size n) m = yes tt
dec_IsSafe (select n) m = yes tt
dec_IsSafe (kill n) m = yes tt
dec_IsSafe display m = yes tt
dec_IsSafe other m = yes tt

step-IsWell : {m m' : Mem} (c : Command) → IsWell m → step c m ≡ ok m' → IsWell m'
step-IsWell {m} c w e = elim (dec_IsSafe c m) [
  | yes s ↦ let (r, eq, good) = step_total m c w s in subst IsWell (ok-injective (sym eq ∙ e)) good
  | no s ↦ cc (step-undefined m c w s)
]

-- The invariant holds in every state that the menu reaches.
pub Reach-IsWell : {m : Mem} → Reach m → IsWell m
Reach-IsWell start = initial-IsWell
Reach-IsWell (later c r e) = step-IsWell c (Reach-IsWell r) e

allocated_at-le :
    (a i : ℕ) {b : AllocatedBlock} (l : List AllocatedBlock)
    → get_elem? l i ≡ some b
    → allocated_at a b ≤ sum_by (allocated_at a) l
allocated_at-le a i [] e = cc
allocated_at-le a zero (x ∷ l) e = ground arith
allocated_at-le a (suc i) (x ∷ l) e = omega (arith, allocated_at-le a i l e)

-- Two entries of a list under which no address is covered twice have no address in common.
allocated_apart :
    (a i j : ℕ) {b c : AllocatedBlock} (l : List AllocatedBlock)
    → sum_by (allocated_at a) l ≤ 1
    → get_elem? l i ≡ some b
    → get_elem? l j ≡ some c
    → allocated_at a b ≡ 1
    → allocated_at a c ≡ 1
    → i ≡ j
allocated_apart a i j [] h e f p q = cc
allocated_apart a zero zero (x ∷ l) h e f p q = refl
allocated_apart a zero (suc j) (x ∷ l) h e f p q = ground (arith, allocated_at-le a j l f)
allocated_apart a (suc i) zero (x ∷ l) h e f p q = ground (arith, allocated_at-le a i l e)
allocated_apart a (suc i) (suc j) (x ∷ l) h e f p q =
    ap suc (allocated_apart a i j l (omega arith) e f p q)

-- In every reachable state the memory of two different processes is disjoint: if an address lies in
-- the blocks at positions `i` and `j` of the list of processes, then `i` is `j`.
pub processes_disjoint :
    {m : Mem}
    → Reach m
    → (a i j : ℕ) {b c : AllocatedBlock} → get_elem? m.allocated_block_head i ≡ some b
    → get_elem? m.allocated_block_head j ≡ some c
    → allocated_at a b ≡ 1
    → allocated_at a c ≡ 1
    → i ≡ j
processes_disjoint {m} r a i j e f p q =
    allocated_apart a i j m.allocated_block_head (ground (arith, (Reach-IsWell r).tiled a)) e f p q
