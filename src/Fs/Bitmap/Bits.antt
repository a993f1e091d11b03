-- ===== src/Fs/Bitmap/Bits.antt =====
-- What the bit operations of lab3/3.c do to a byte, checked for every byte.
use Prim.Native.Nat.{bit_and, bit_or}
use xjtu_oslab.Base.{
  ◌+◌, Option, ==_iff, ltb→lt, ap, ℕ, zero, suc, ◌-◌, ◌/◌, ◌%◌, ◌^◌, ◌<◌, ◌≡◌, refl, arith, none,
  some, ◌==◌, ltb, Bool, true, false, ◌&&◌, if◌then◌else◌,
}
use xjtu_oslab.Fs.Bitmap.{first_bit}

-- Bit `n` of a byte, from the highest.
abbrev pub bit_of : ℕ → ℕ → ℕ
bit_of x n = x / 2 ^ (7 - n) % 2

-- The test of every number below the bound, and what it says of one of them.
each_under : (ℕ → Bool) → ℕ → Bool
each_under test zero = true
each_under test (suc bound) = each_under test bound && test bound

each_under-at :
    (test : ℕ → Bool) (i bound : ℕ) → i < bound → each_under test bound ≡ true → test i ≡ true
unfolding each_under
each_under-at test i zero small e = absurd (omega arith)
each_under-at test i (suc bound) small e = ground (arith, each_under-at test i bound)

-- The clear bits of a byte.
abbrev pub zeros_of : ℕ → ℕ
zeros_of x =
    8
    - (bit_of x 0
        + bit_of x 1
        + bit_of x 2
        + bit_of x 3
        + bit_of x 4
        + bit_of x 5
        + bit_of x 6
        + bit_of x 7)

-- The mask of bit `n`.
abbrev pub mask : ℕ → ℕ
mask n = 0b10000000 / 2 ^ n

-- Setting bit `n`, and clearing it, change that bit `m` only if it is the same.
abbrev or_bit : ℕ → ℕ → ℕ → Bool
or_bit x n m = bit_of (bit_or x (mask n)) m == (if n == m then 1 else bit_of x m)

abbrev and_bit : ℕ → ℕ → ℕ → Bool
and_bit x n m = bit_of (bit_and x (255 - mask n)) m == (if n == m then 0 else bit_of x m)

-- The results are bytes, and the number of clear bits follows.
abbrev or_byte : ℕ → ℕ → Bool
or_byte x n =
    ltb (bit_or x (mask n)) 256 && (zeros_of (bit_or x (mask n)) + 1 == zeros_of x + bit_of x n)

abbrev and_byte : ℕ → ℕ → Bool
and_byte x n =
    ltb (bit_and x (255 - mask n)) 256
    && (zeros_of (bit_and x (255 - mask n)) == zeros_of x + bit_of x n)

bytes_table :
    each_under
      (λ x.
        each_under
          (λ n.
            or_byte x n
            && (and_byte x n && (each_under (or_bit x n) 8 && each_under (and_bit x n) 8)))
          8)
      256
    ≡ true
unfolding each_under
bytes_table = refl

-- What `x | mask n` and `x & ~mask n` are, bit by bit.
pub record Masked (x n : ℕ) : Type 0 where
  pub or_lt : bit_or x (mask n) < 256
  pub and_lt : bit_and x (255 - mask n) < 256
  pub or_zeros : zeros_of (bit_or x (mask n)) + 1 ≡ zeros_of x + bit_of x n
  pub and_zeros : zeros_of (bit_and x (255 - mask n)) ≡ zeros_of x + bit_of x n
  pub or_bits : (m : ℕ) → m < 8 → bit_of (bit_or x (mask n)) m ≡ (if n == m then 1 else bit_of x m)
  pub and_bits :
      (m : ℕ) → m < 8 → bit_of (bit_and x (255 - mask n)) m ≡ (if n == m then 0 else bit_of x m)

and_left : (a b : Bool) → (a && b) ≡ true → a ≡ true
and_left a b h = ground arith

and_right : (a b : Bool) → (a && b) ≡ true → b ≡ true
and_right a b h = ground arith

pub masked : (x n : ℕ) → x < 256 → n < 8 → Masked x n
masked x n hx hn =
    let row = each_under-at _ n 8 hn (each_under-at _ x 256 hx bytes_table) in
    let or_row = and_left (or_byte x n) _ row in
    let rest = and_right (or_byte x n) _ row in
    let and_row = and_left (and_byte x n) _ rest in
    let bits = and_right (and_byte x n) _ rest in
    let ors = and_left (each_under (or_bit x n) 8) _ bits in
    let ands = and_right (each_under (or_bit x n) 8) _ bits in
    record {
      or_lt = ltb→lt _ _ (and_left (ltb (bit_or x (mask n)) 256) _ or_row);
      and_lt = ltb→lt _ _ (and_left (ltb (bit_and x (255 - mask n)) 256) _ and_row);
      or_zeros = (==_iff _ _).0 (and_right (ltb (bit_or x (mask n)) 256) _ or_row);
      and_zeros = (==_iff _ _).0 (and_right (ltb (bit_and x (255 - mask n)) 256) _ and_row);
      or_bits = λ m hm. (==_iff _ _).0 (each_under-at (or_bit x n) m 8 hm ors);
      and_bits = λ m hm. (==_iff _ _).0 (each_under-at (and_bit x n) m 8 hm ands);
    }

-- The loop over the bits of a byte that is not full ends within 8 rounds, at the first clear bit.
abbrev scan_bits : ℕ → Option (ℕ × ℕ) → Bool
scan_bits x none = false
scan_bits x (some (j, n)) =
    (j == mask n) && (ltb n 8 && (bit_of x n == 0 && each_under (λ m. bit_of x m == 1) n))

scan_table : each_under (λ x. scan_bits x (first_bit 9 x 0b10000000 0)) 255 ≡ true
unfolding each_under first_bit
scan_table = refl

pub record Scanned (x n : ℕ) : Type 0 where
  pub in_byte : n < 8
  pub clear : bit_of x n ≡ 0
  pub earlier : (m : ℕ) → m < n → bit_of x m ≡ 1

scan_bits-Scanned :
    (x : ℕ) (o : Option (ℕ × ℕ))
    → scan_bits x o ≡ true
    → (n : ℕ) × (o ≡ some (mask n, n)) × Scanned x n
scan_bits-Scanned x none h = cc
scan_bits-Scanned x (some (j, n)) h =
    let rest = and_right (j == mask n) _ h in
    let bits = and_right (ltb n 8) _ rest in
    let same : j ≡ mask n = (==_iff _ _).0 (and_left (j == mask n) _ h) in
    (
      n,
      ap (λ (k : ℕ). some (k, n)) same,
      record {
        in_byte = ltb→lt _ _ (and_left (ltb n 8) _ rest);
        clear = (==_iff _ _).0 (and_left (bit_of x n == 0) _ bits);
        earlier =
            λ m hm. (==_iff _ _).0 (each_under-at _ m n hm (and_right (bit_of x n == 0) _ bits));
      },
    )

pub first_bit-Scanned :
    (x : ℕ) → x < 255 → (n : ℕ) × (first_bit 9 x 0b10000000 0 ≡ some (mask n, n)) × Scanned x n
first_bit-Scanned x h =
    scan_bits-Scanned x (first_bit 9 x 0b10000000 0) (each_under-at _ x 255 h scan_table)

full_bits_table : each_under (λ n. bit_of 255 n == 1) 8 ≡ true
unfolding each_under
full_bits_table = refl

pub full_bits : (x n : ℕ) → x ≡ 255 → n < 8 → bit_of x n ≡ 1
full_bits x n e h =
    rw e ((==_iff _ 1).0 (each_under-at (λ n. bit_of 255 n == 1) n 8 h full_bits_table))
