-- ===== src/Threads/Race/Bounds.antt =====
-- How far a lost update can take the variable of lab1-2/1-2.c.
use xjtu_oslab.Base.{
  ltb→lt, ◌≡◌, List, [], ◌∷◌, some, Bool, true, false, OnSome, OnSome_at, Bool-cases, inl, inr, ltb,
  ℕ, ◌+◌, ◌*◌, ◌%◌, ◌≤◌, ◌<◌, arith,
}
use xjtu_oslab.Threads.{increment, decrement, Turn, first, second, word_size, loop_count}
use xjtu_oslab.Threads.Race.{
  thread_access, add, sub, Process, main_start, turn, play, Pc, head, ready, loaded, returned,
}

-- The rounds whose value the thread has written.
abbrev pub written : Pc → ℕ
written (head i) = i
written (ready i) = i
written (loaded i _) = i
written returned = loop_count

-- A word that is a number between `- b` and `a`.
abbrev pub IsBetween : ℕ → ℕ → ℕ → Type 0
IsBetween a b x = (x < word_size) × ((x + b) % word_size ≤ a + b)

abbrev pub IsAhead : ℕ → ℕ → Pc → Type 0
IsAhead a b (head i) = i ≤ loop_count
IsAhead a b (ready i) = i < loop_count
IsAhead a b (loaded i v) = (i < loop_count) × IsBetween a b v
IsAhead a b returned = Unit

-- `p` stands in `add` and `q` in `sub`.
pub record Inv (x : ℕ) (p q : Pc) : Type 0 where
  pub between : IsBetween (written p) (written q) x
  pub ahead_add : IsAhead (written p) (written q) p
  pub ahead_sub : IsAhead (written p) (written q) q
  pub few_add : written p ≤ loop_count
  pub few_sub : written q ≤ loop_count

-- More rounds of the other thread only widen the range.
IsAhead-more_add :
    (a b c : ℕ) (q : Pc) → a ≤ c → c ≤ loop_count → b ≤ loop_count → IsAhead a b q → IsAhead c b q
IsAhead-more_add a b c (head i) h k l v = v
IsAhead-more_add a b c (ready i) h k l v = v
IsAhead-more_add a b c (loaded i x) h k l v = omega arith
IsAhead-more_add a b c returned h k l v = tt

IsAhead-more_sub :
    (a b c : ℕ) (p : Pc) → b ≤ c → c ≤ loop_count → a ≤ loop_count → IsAhead a b p → IsAhead a c p
IsAhead-more_sub a b c (head i) h k l v = v
IsAhead-more_sub a b c (ready i) h k l v = v
IsAhead-more_sub a b c (loaded i x) h k l v = omega arith
IsAhead-more_sub a b c returned h k l v = tt

add-Inv : (x : ℕ) (p q : Pc) → Inv x p q → Inv (add x p).0 (add x p).1 q
unfolding add thread_access increment
add-Inv x (head i) q v = elim (Bool-cases (ltb i loop_count)) [
  | inl more ↦ rw more (record {
    between = v.between;
    ahead_add = omega (arith, ltb→lt);
    ahead_sub = v.ahead_sub;
    few_add = v.few_add;
    few_sub = v.few_sub;
  })
  | inr done ↦
      let whole : loop_count ≡ i = ground arith in
      rw done (record {
        between = rw whole v.between;
        ahead_add = tt;
        ahead_sub = rw whole v.ahead_sub;
        few_add = omega arith;
        few_sub = v.few_sub;
      })
]
add-Inv x (ready i) q v = record {
  between = v.between;
  ahead_add = (v.ahead_add, v.between);
  ahead_sub = v.ahead_sub;
  few_add = v.few_add;
  few_sub = v.few_sub;
}
add-Inv x (loaded i y) q v = record {
  between = omega (arith, v.few_sub);
  ahead_add = omega arith;
  ahead_sub =
      IsAhead-more_add i (written q) (i + 1) q (omega arith) (omega arith) v.few_sub v.ahead_sub;
  few_add = omega arith;
  few_sub = v.few_sub;
}
add-Inv x returned q v = v

sub-Inv : (x : ℕ) (p q : Pc) → Inv x p q → Inv (sub x q).0 p (sub x q).1
unfolding sub thread_access decrement
sub-Inv x p (head i) v = elim (Bool-cases (ltb i loop_count)) [
  | inl more ↦ rw more (record {
    between = v.between;
    ahead_add = v.ahead_add;
    ahead_sub = omega (arith, ltb→lt);
    few_add = v.few_add;
    few_sub = v.few_sub;
  })
  | inr done ↦
      let whole : loop_count ≡ i = ground arith in
      rw done (record {
        between = rw whole v.between;
        ahead_add = rw whole v.ahead_add;
        ahead_sub = tt;
        few_add = v.few_add;
        few_sub = omega arith;
      })
]
sub-Inv x p (ready i) v = record {
  between = v.between;
  ahead_add = v.ahead_add;
  ahead_sub = (v.ahead_sub, v.between);
  few_add = v.few_add;
  few_sub = v.few_sub;
}
sub-Inv x p (loaded i y) v = record {
  between = omega (arith, v.few_add);
  ahead_add =
      IsAhead-more_sub (written p) i (i + 1) p (omega arith) (omega arith) v.few_add v.ahead_add;
  ahead_sub = omega arith;
  few_add = v.few_add;
  few_sub = omega arith;
}
sub-Inv x p returned v = v

abbrev pub ProcessInv : Process → Type 0
ProcessInv s = Inv s.shared s.thread1 s.thread2

play-Inv : (ts : List Turn) (s : Process) → ProcessInv s → ProcessInv (play ts s)
unfolding play turn
play-Inv [] s v = v
play-Inv (first ∷ ts) s v = play-Inv ts (turn first s) (add-Inv s.shared s.thread1 s.thread2 v)
play-Inv (second ∷ ts) s v = play-Inv ts (turn second s) (sub-Inv s.shared s.thread1 s.thread2 v)

started-Inv : (c d : Bool) → OnSome ProcessInv (main_start c d)
unfolding main_start
started-Inv true true = omega arith
started-Inv true false = tt
started-Inv false d = tt

-- Without a lock, under every schedule, `shared` is a number between minus the decrements that the
-- second thread has written and the increments that the first has written, and so between -10000 and
-- 10000.
pub shared_bounds :
    (c d : Bool) (s : Process) (ts : List Turn)
    → main_start c d ≡ some s
    → IsBetween (written (play ts s).thread1) (written (play ts s).thread2) (play ts s).shared
      × ((play ts s).shared + loop_count) % word_size ≤ 2 * loop_count
shared_bounds c d s ts h =
    let v = play-Inv ts s (OnSome_at ProcessInv (main_start c d) (started-Inv c d) h) in
    (v.between, omega (arith, v))
