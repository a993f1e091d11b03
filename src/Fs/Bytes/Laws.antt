-- ===== src/Fs/Bytes/Laws.antt =====
-- Reading what was written, and reading elsewhere, on the image of lab3/3.c.
use Prim.Native.Nat.{◌^◌}
use mathlib.Core.Path.{ap₂}
use native.Mathlib.Nat.{pow-suc}
use xjtu_oslab.Base.{
  le→leb, lt→ltb, ℕ, zero, suc, ◌+◌, ◌/◌, ◌≤◌, ◌<◌, ◌≡◌, refl, List, [], ◌∷◌, ◌++◌, arith, length,
  ◌⊎◌, All, ap, get_or, ◌∙◌,
}
use xjtu_oslab.Fs.Bytes.{Bytes, write, read, to_le, from_le, front, behind, to_words, from_words}

-- Bytes that are not written stay.
pub read-write_apart :
    (d : Bytes) (o : ℕ) (bs : List ℕ) (p n : ℕ)
    → (p + n ≤ o) ⊎ (o + length bs ≤ p)
    → read (write d o bs) p n ≡ read d p n
unfolding read
read-write_apart d o bs p zero h = refl
read-write_apart d o bs p (suc n) h =
    ap₂ ◌∷◌ (write_apart d o bs p (ground arith)) (read-write_apart d o bs (p + 1) n (ground arith))
  where
    write_apart :
        (d : Bytes) (o : ℕ) (bs : List ℕ) (p : ℕ)
        → (p < o) ⊎ (o + length bs ≤ p)
        → write d o bs p ≡ d p
    write_apart d o bs p h = unfold write in ground arith

read_pointwise :
    (d : Bytes) (o : ℕ) (bs : List ℕ)
    → ((i : ℕ) → i < length bs → d (o + i) ≡ get_or bs i 0)
    → read d o (length bs) ≡ bs
unfolding read
read_pointwise d o [] h = refl
read_pointwise d o (b ∷ bs) h =
    ap₂ ◌∷◌ (ap d (omega arith) ∙ h 0 (omega arith))
      (read_pointwise d (o + 1) bs (λ i k. ap d (omega arith) ∙ h (suc i) (omega arith)))

-- Bytes that are written are read back.
pub read-write_same : (d : Bytes) (o : ℕ) (bs : List ℕ) → read (write d o bs) o (length bs) ≡ bs
unfolding write
read-write_same d o bs = read_pointwise (write d o bs) o bs λ i k.
    rw (le→leb o (o + i) (omega arith), lt→ltb (o + i) (o + length bs) (omega arith))
      (ap (λ (j : ℕ). get_or bs j 0) (omega arith))

pub read-write_length :
    (d : Bytes) (o : ℕ) (bs : List ℕ) (n : ℕ) → length bs ≡ n → read (write d o bs) o n ≡ bs
read-write_length d o bs n e = rw (← e) (read-write_same d o bs)

pub length-to_le : (k v : ℕ) → length (to_le k v) ≡ k
unfolding to_le
length-to_le zero v = refl
length-to_le (suc k) v = ap suc (length-to_le k (v / 256))

pub from_le-to_le : (k v : ℕ) → v < 256 ^ k → from_le (to_le k v) ≡ v
unfolding to_le from_le
from_le-to_le zero v h = omega arith
from_le-to_le (suc k) v h = omega (arith, from_le-to_le k (v / 256) (omega (arith, pow-suc 256 k)))

pub front-append : (n : ℕ) (xs bs : List ℕ) → length xs ≡ n → front n (xs ++ bs) ≡ xs
unfolding front
front-append zero [] bs h = refl
front-append zero (a ∷ xs) bs h = absurd (omega arith)
front-append (suc n) [] bs h = absurd (omega arith)
front-append (suc n) (a ∷ xs) bs h = ap (◌∷◌ a) (front-append n xs bs (omega arith))

pub behind-append : (n : ℕ) (xs bs : List ℕ) → length xs ≡ n → behind n (xs ++ bs) ≡ bs
unfolding behind
behind-append zero [] bs h = refl
behind-append zero (a ∷ xs) bs h = absurd (omega arith)
behind-append (suc n) [] bs h = absurd (omega arith)
behind-append (suc n) (a ∷ xs) bs h = behind-append n xs bs (omega arith)

pub from_words-to_words :
    (n : ℕ) (ws rest : List ℕ)
    → length ws ≡ n
    → All (λ w. w < 2 ^ 16) ws
    → from_words n (to_words ws ++ rest) ≡ ws
unfolding to_words from_words front behind to_le from_le
from_words-to_words zero [] rest e h = refl
from_words-to_words zero (w ∷ ws) rest e h = absurd (omega arith)
from_words-to_words (suc n) [] rest e h = absurd (omega arith)
from_words-to_words (suc n) (w ∷ ws) rest e h =
    ap₂ ◌∷◌ (omega arith) (from_words-to_words n ws rest (omega arith) h.1)
