-- ===== src/Fs/Bytes/Range.antt =====
-- Bytes are below 256, and so what is read from the image of lab3/3.c fits the C types.
use xjtu_oslab.Base.{
  get_or, ◌++◌, ◌/◌, ℕ, zero, suc, ◌+◌, ◌-◌, ◌≤◌, ◌<◌, ◌≡◌, refl, arith, List, [], ◌∷◌, length, ap,
  All,
}
use xjtu_oslab.Fs.Bytes.{zero_bytes, to_le, write, Bytes, read, from_le, front, behind}

abbrev pub AreBytes : List ℕ → Type 0
AreBytes bs = All (λ b. b < 256) bs

pub length-read : (d : Bytes) (o n : ℕ) → length (read d o n) ≡ n
unfolding read
length-read d o zero = refl
length-read d o (suc n) = ap suc (length-read d (o + 1) n)

pub read-AreBytes : (d : Bytes) (o n : ℕ) → ((p : ℕ) → d p < 256) → AreBytes (read d o n)
unfolding read
read-AreBytes d o zero h = tt
read-AreBytes d o (suc n) h = (h o, read-AreBytes d (o + 1) n h)

pub behind-AreBytes : (n : ℕ) (bs : List ℕ) → AreBytes bs → AreBytes (behind n bs)
unfolding behind
behind-AreBytes zero bs h = h
behind-AreBytes (suc n) [] h = tt
behind-AreBytes (suc n) (b ∷ bs) h = behind-AreBytes n bs h.1

pub length-front : (n : ℕ) (bs : List ℕ) → n ≤ length bs → length (front n bs) ≡ n
unfolding front
length-front zero bs h = refl
length-front (suc n) [] h = absurd (omega arith)
length-front (suc n) (b ∷ bs) h = ap suc (length-front n bs (omega arith))

pub length-behind : (n : ℕ) (bs : List ℕ) → length (behind n bs) ≡ length bs - n
unfolding behind
length-behind zero bs = omega arith
length-behind (suc n) [] = omega arith
length-behind (suc n) (b ∷ bs) = omega (arith, length-behind n bs)

pub word_lt : (bs : List ℕ) → AreBytes bs → from_le (front 2 bs) < 65536
unfolding from_le front
word_lt [] h = omega arith
word_lt (a ∷ []) h = omega arith
word_lt (a ∷ b ∷ bs) h = omega arith

pub get_or-lt : (l : List ℕ) (i : ℕ) → AreBytes l → get_or l i 0 < 256
get_or-lt [] i h = omega arith
get_or-lt (x ∷ l) zero h = h.0
get_or-lt (x ∷ l) (suc i) h = get_or-lt l i h.1

pub front-AreBytes : (n : ℕ) (bs : List ℕ) → AreBytes bs → AreBytes (front n bs)
unfolding front
front-AreBytes zero bs h = tt
front-AreBytes (suc n) [] h = tt
front-AreBytes (suc n) (b ∷ bs) h = (h.0, front-AreBytes n bs h.1)

pub append-AreBytes : (xs ys : List ℕ) → AreBytes xs → AreBytes ys → AreBytes (xs ++ ys)
append-AreBytes [] ys h k = k
append-AreBytes (x ∷ xs) ys h k = (h.0, append-AreBytes xs ys h.1 k)

pub to_le-AreBytes : (k v : ℕ) → AreBytes (to_le k v)
unfolding to_le
to_le-AreBytes zero v = tt
to_le-AreBytes (suc k) v = (omega arith, to_le-AreBytes k (v / 256))

pub zero_bytes-AreBytes : (n : ℕ) → AreBytes (zero_bytes n)
unfolding zero_bytes
zero_bytes-AreBytes zero = tt
zero_bytes-AreBytes (suc n) = (omega arith, zero_bytes-AreBytes n)

pub length-zero_bytes : (n : ℕ) → length (zero_bytes n) ≡ n
unfolding zero_bytes
length-zero_bytes zero = refl
length-zero_bytes (suc n) = ap suc (length-zero_bytes n)

-- A write of bytes leaves an image of bytes.
pub write-lt :
    (d : Bytes) (o : ℕ) (bs : List ℕ)
    → ((p : ℕ) → d p < 256)
    → AreBytes bs
    → (p : ℕ) → write d o bs p < 256
unfolding write
write-lt d o bs h k p = ground (arith, h p, get_or-lt bs (p - o) k)
