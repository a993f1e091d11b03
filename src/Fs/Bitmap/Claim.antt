-- ===== src/Fs/Bitmap/Claim.antt =====
-- The search for a clear bit in lab3/3.c finds the first one, and sets only that; `clear_bit` is its
-- converse.
use Prim.Native.Nat.{bit_and, bit_or}
use native.Mathlib.Decide.{dec_lt}
use xjtu_oslab.Base.{
  ==_iff, ◌&&◌, ℕ, zero, suc, ◌+◌, ◌-◌, ◌*◌, ◌/◌, ◌%◌, ◌<◌, ◌≡◌, ◌≢◌, refl, arith, some, ◌==◌,
  if◌then◌else◌, List, [], ◌∷◌, sum_by, get_or, set, length, length-set, lt→ltb, Bool-cases, inl,
  inr, ap,
}
use xjtu_oslab.Fs.Bytes.Range.{AreBytes, get_or-lt}
use xjtu_oslab.Fs.Bitmap.{first_byte, mark, claim_bit, clear_bit}
use xjtu_oslab.Fs.Bitmap.Bits.{
  full_bits, bit_of, zeros_of, mask, Masked, masked, Scanned, first_bit-Scanned,
}

-- Bit `k` of a bitmap, and the number of its clear bits.
abbrev pub bit_at : List ℕ → ℕ → ℕ
bit_at bitmap k = bit_of (get_or bitmap (k / 8) 0) (k % 8)

abbrev pub zeros : List ℕ → ℕ
zeros bitmap = sum_by zeros_of bitmap

get_or-set :
    (l : List ℕ) (i j v : ℕ)
    → i < length l
    → get_or (set l i v) j 0 ≡ (if i == j then v else get_or l j 0)
get_or-set [] i j v h = absurd (omega arith)
get_or-set (x ∷ l) zero zero v h = refl
get_or-set (x ∷ l) zero (suc j) v h = ground arith
get_or-set (x ∷ l) (suc i) zero v h = ground arith
get_or-set (x ∷ l) (suc i) (suc j) v h = ground (arith, get_or-set l i j v)

set-AreBytes : (l : List ℕ) (i v : ℕ) → AreBytes l → v < 256 → AreBytes (set l i v)
set-AreBytes [] i v h k = tt
set-AreBytes (x ∷ l) zero v h k = (k, h.1)
set-AreBytes (x ∷ l) (suc i) v h k = (h.0, set-AreBytes l i v h.1 k)

zeros-set :
    (l : List ℕ) (i v : ℕ)
    → i < length l
    → zeros (set l i v) + zeros_of (get_or l i 0) ≡ zeros l + zeros_of v
zeros-set [] i v h = absurd (omega arith)
zeros-set (x ∷ l) zero v h = omega arith
zeros-set (x ∷ l) (suc i) v h = omega (arith, zeros-set l i v (omega arith))

-- The bytes before the one that the loop stops at are full.
first_byte-full : (l : List ℕ) (i : ℕ) → i < first_byte l → get_or l i 0 ≡ 255
unfolding first_byte
first_byte-full [] i h = absurd (omega arith)
first_byte-full (x ∷ l) zero h = ground arith
first_byte-full (x ∷ l) (suc i) h = ground (arith, first_byte-full l i)

zeros_of_full : (x : ℕ) → x ≡ 255 → zeros_of x ≡ 0
zeros_of_full x e = rw e

-- A bitmap with a clear bit has a byte that is not full, and the loop stops there.
first_byte-lt :
    (l : List ℕ) → 0 < zeros l → (first_byte l < length l) × (get_or l (first_byte l) 0 ≢ 255)
unfolding first_byte
first_byte-lt [] h = absurd (omega arith)
first_byte-lt (x ∷ l) h = elim (Bool-cases (x == 255)) [
  | inl full ↦
      let none : zeros_of x ≡ 0 = zeros_of_full x (ground arith) in
      let (inside, rest) = first_byte-lt l (omega arith) in rw full (omega arith, rest)
  | inr free ↦ rw free (omega arith, ground arith)
]

-- The number of a bit, as its byte and its place there.
div_eight : (i n : ℕ) → n < 8 → (8 * i + n) / 8 ≡ i
div_eight i n h = omega arith

mod_eight : (i n : ℕ) → n < 8 → (8 * i + n) % 8 ≡ n
mod_eight i n h = omega arith

same_bit : (i n m : ℕ) → n < 8 → (8 * i + n == m) ≡ ((i == m / 8) && (n == m % 8))
same_bit i n m h = ground arith

bit_at-set :
    (l : List ℕ) (i v m : ℕ)
    → i < length l
    → bit_at (set l i v) m ≡ (if i == m / 8 then bit_of v (m % 8) else bit_at l m)
bit_at-set l i v m h = elim (Bool-cases (i == m / 8)) [
  | inl e ↦ rw (get_or-set l i (m / 8) v h, e)
  | inr e ↦ rw (get_or-set l i (m / 8) v h, e)
]

-- `f` changes only bit `n` of the byte `x`, to `v`: so does a write of its result.
change_bit :
    (l : List ℕ) (i n v y : ℕ)
    → i < length l
    → n < 8
    → ((m : ℕ) → m < 8 → bit_of y m ≡ (if n == m then v else bit_of (get_or l i 0) m))
    → (m : ℕ) → bit_at (set l i y) m ≡ (if 8 * i + n == m then v else bit_at l m)
change_bit l i n v y inside hn only m = elim (Bool-cases (i == m / 8)) [
  | inl e ↦
      let at : get_or l i 0 ≡ get_or l (m / 8) 0 =
        ap (λ (j : ℕ). get_or l j 0) ((==_iff i (m / 8)).0 e) in
      rw (bit_at-set l i y m inside, same_bit i n m hn, e, only (m % 8) (omega arith), at)
  | inr e ↦ rw (bit_at-set l i y m inside, same_bit i n m hn, e)
]

-- `k` is the first clear bit of `bitmap`, and `bitmap'` differs by having it set.
pub record Claimed (bitmap : List ℕ) (k : ℕ) (bitmap' : List ℕ) : Type 0 where
  pub inside : k < 8 * length bitmap
  pub was_clear : bit_at bitmap k ≡ 0
  pub earlier : (m : ℕ) → m < k → bit_at bitmap m ≡ 1
  pub bits : (m : ℕ) → bit_at bitmap' m ≡ (if k == m then 1 else bit_at bitmap m)
  pub same_length : length bitmap' ≡ length bitmap
  pub bytes : AreBytes bitmap'
  pub one_less : zeros bitmap' + 1 ≡ zeros bitmap

mark-Claimed :
    (l : List ℕ) (n : ℕ)
    → AreBytes l
    → first_byte l < length l
    → Scanned (get_or l (first_byte l) 0) n
    → Claimed l
        (8 * first_byte l + n)
        (set l (first_byte l) (bit_or (get_or l (first_byte l) 0) (mask n)))
mark-Claimed l n bytes inside s = record {
  inside = omega arith;
  was_clear = rw (div_eight i n s.in_byte, mod_eight i n s.in_byte) s.clear;
  earlier = before;
  bits = change_bit l i n 1 (bit_or x (mask n)) inside s.in_byte m.or_bits;
  same_length = length-set l i (bit_or x (mask n));
  bytes = set-AreBytes l i (bit_or x (mask n)) bytes m.or_lt;
  one_less = omega (arith, zeros-set l i (bit_or x (mask n)), m.or_zeros);
}
  where
    i : ℕ
    i = first_byte l

    x : ℕ
    x = get_or l i 0

    m : Masked x n
    m = masked x n (get_or-lt l i bytes) s.in_byte

    before : (k : ℕ) → k < 8 * i + n → bit_at l k ≡ 1
    before k h = elim (dec_lt (k / 8) i) [
      | yes full ↦
          full_bits (get_or l (k / 8) 0) (k % 8) (first_byte-full l (k / 8) full) (omega arith)
      | no here ↦ let at : k / 8 ≡ i = omega arith in rw at (s.earlier (k % 8) (omega arith))
    ]

-- Where a bit is clear, `claim_bit` is defined: it finds the first clear bit and sets that bit alone.
pub claim_bit_lem :
    (bitmap : List ℕ)
    → AreBytes bitmap
    → 0 < zeros bitmap
    → (k : ℕ) × (bitmap' : List ℕ) × (claim_bit bitmap ≡ some (k, bitmap'))
      × Claimed bitmap k bitmap'
unfolding claim_bit mark
claim_bit_lem l bytes free =
    let (inside, not_full) = first_byte-lt l free in
    let small = get_or-lt l (first_byte l) bytes in
    let (n, eq, s) = first_bit-Scanned (get_or l (first_byte l) 0) (ground arith) in
    (
      8 * first_byte l + n,
      set l (first_byte l) (bit_or (get_or l (first_byte l) 0) (mask n)),
      rw (lt→ltb (first_byte l) (length l) inside, eq),
      mark-Claimed l n bytes inside s,
    )

-- `bitmap'` differs from `bitmap` by having bit `k` clear.
pub record Cleared (bitmap : List ℕ) (k : ℕ) (bitmap' : List ℕ) : Type 0 where
  pub bits : (m : ℕ) → bit_at bitmap' m ≡ (if k == m then 0 else bit_at bitmap m)
  pub same_length : length bitmap' ≡ length bitmap
  pub bytes : AreBytes bitmap'
  pub count : zeros bitmap' ≡ zeros bitmap + bit_at bitmap k

-- Inside the bitmap `clear_bit` is defined and clears that bit alone.
pub clear_bit_lem :
    (bitmap : List ℕ) (k : ℕ)
    → AreBytes bitmap
    → k < 8 * length bitmap
    → (bitmap' : List ℕ) × (clear_bit k bitmap ≡ some bitmap') × Cleared bitmap k bitmap'
unfolding clear_bit
clear_bit_lem l k bytes h = (
  set l i y,
  rw (lt→ltb i (length l) inside),
  record {
    bits = λ j. rw (whole j) (change_bit l i n 0 y inside small m.and_bits j);
    same_length = length-set l i y;
    bytes = set-AreBytes l i y bytes m.and_lt;
    count = omega (arith, zeros-set l i y inside, m.and_zeros);
  },
)
  where
    i : ℕ
    i = k / 8

    n : ℕ
    n = k % 8

    small : n < 8
    small = omega arith

    inside : i < length l
    inside = omega arith

    y : ℕ
    y = bit_and (get_or l i 0) (255 - mask n)

    m : Masked (get_or l i 0) n
    m = masked (get_or l i 0) n (get_or-lt l i bytes) small

    whole : (j : ℕ) → (k == j) ≡ (8 * i + n == j)
    whole j = ground arith
