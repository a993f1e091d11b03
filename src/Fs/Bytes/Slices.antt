-- ===== src/Fs/Bytes/Slices.antt =====
-- Parts of a buffer, and what a write into it leaves of them.
use xjtu_oslab.Base.{
  length-append, ℕ, zero, suc, ◌+◌, ◌-◌, ◌≤◌, ◌≡◌, refl, arith, List, [], ◌∷◌, ◌++◌, length, ap,
  ◌∙◌, ◌⊎◌, inl, inr,
}
use xjtu_oslab.Fs.Bytes.{front, behind}
use xjtu_oslab.Fs.Bytes.Laws.{front-append, behind-append}
use xjtu_oslab.Fs.Bytes.Range.{length-front, length-behind}

abbrev pub slice : List ℕ → ℕ → ℕ → List ℕ
slice block o n = front n (behind o block)

pub front-front : (m n : ℕ) (xs : List ℕ) → m ≤ n → front m (front n xs) ≡ front m xs
unfolding front
front-front zero n xs h = refl
front-front (suc m) zero xs h = absurd (omega arith)
front-front (suc m) (suc n) [] h = refl
front-front (suc m) (suc n) (x ∷ xs) h = ap (◌∷◌ x) (front-front m n xs (omega arith))

pub behind-front :
    (m n k : ℕ) (xs : List ℕ) → k ≡ m + n → behind m (front k xs) ≡ front n (behind m xs)
unfolding front behind
behind-front zero n k xs e = ap (λ (j : ℕ). front j xs) (omega arith)
behind-front (suc m) n zero xs e = absurd (omega arith)
behind-front (suc m) zero (suc k) [] e = refl
behind-front (suc m) (suc n) (suc k) [] e = refl
behind-front (suc m) n (suc k) (x ∷ xs) e = behind-front m n k xs (omega arith)

pub behind-behind : (m n k : ℕ) (xs : List ℕ) → k ≡ m + n → behind n (behind m xs) ≡ behind k xs
unfolding behind
behind-behind zero n k xs e = ap (λ (j : ℕ). behind j xs) (omega arith)
behind-behind (suc m) n zero xs e = absurd (omega arith)
behind-behind (suc m) zero (suc k) [] e = refl
behind-behind (suc m) (suc n) (suc k) [] e = refl
behind-behind (suc m) n (suc k) (x ∷ xs) e = behind-behind m n k xs (omega arith)

slice-append_left :
    (p n : ℕ) (xs ys : List ℕ) → p + n ≤ length xs → slice (xs ++ ys) p n ≡ slice xs p n
unfolding front behind
slice-append_left zero zero xs ys h = refl
slice-append_left zero (suc n) [] ys h = absurd (omega arith)
slice-append_left zero (suc n) (x ∷ xs) ys h =
    ap (◌∷◌ x) (slice-append_left zero n xs ys (omega arith))
slice-append_left (suc p) n [] ys h = absurd (omega arith)
slice-append_left (suc p) n (x ∷ xs) ys h = slice-append_left p n xs ys (omega arith)

behind-append_right :
    (k j : ℕ) (xs ys : List ℕ) → j ≡ length xs + k → behind j (xs ++ ys) ≡ behind k ys
unfolding behind
behind-append_right k j [] ys e = ap (λ (i : ℕ). behind i ys) (omega arith)
behind-append_right k zero (x ∷ xs) ys e = absurd (omega arith)
behind-append_right k (suc j) (x ∷ xs) ys e = behind-append_right k j xs ys (omega arith)

-- A part of a part that begins at its start.
pub slice-front : (p n m : ℕ) (xs : List ℕ) → p + n ≤ m → slice (front m xs) p n ≡ slice xs p n
slice-front p n m xs h =
    rw (behind-front p (m - p) m xs (omega arith))
      (front-front n (m - p) (behind p xs) (omega arith))

pub slice-behind : (p n o : ℕ) (xs : List ℕ) → slice (behind o xs) p n ≡ slice xs (o + p) n
slice-behind p n o xs = ap (front n) (behind-behind o p (o + p) xs refl)

-- `block'` is `block` with `bs` written at `o`.
pub record Written (block : List ℕ) (o : ℕ) (bs block' : List ℕ) : Type 0 where
  pub same_length : length block' ≡ length block
  pub here : slice block' o (length bs) ≡ bs
  pub apart : (p n : ℕ) → (p + n ≤ o) ⊎ (o + length bs ≤ p) → slice block' p n ≡ slice block p n

pub Written-append :
    (block : List ℕ) (o : ℕ) (bs : List ℕ)
    → o + length bs ≤ length block
    → Written block o bs (front o block ++ (bs ++ behind (o + length bs) block))
Written-append block o bs h = record {
  same_length = omega (
    arith,
    length-append (front o block) (bs ++ rest),
    length-append bs rest,
    before,
    length-behind (o + length bs) block,
  );
  here =
      rw (behind-append o (front o block) (bs ++ rest) before)
        (front-append (length bs) bs rest refl);
  apart = λ p n k. elim k [
    | inl left ↦
        slice-append_left p n (front o block) (bs ++ rest) (omega (arith, before))
        ∙ slice-front p n o block left
    | inr right ↦ ap (front n) (
        behind-append_right (p - o) p (front o block) (bs ++ rest) (omega (arith, before))
        ∙ behind-append_right (p - o - length bs) (p - o) bs rest (omega arith)
        ∙ behind-behind (o + length bs) (p - o - length bs) p block (omega arith))
  ];
}
  where
    rest : List ℕ
    rest = behind (o + length bs) block

    before : length (front o block) ≡ o
    before = length-front o block (omega arith)
