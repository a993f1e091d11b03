-- ===== src/Fs/Bitmap.antt =====
-- lab3/3.c, lines 191 to 233, 579 to 607 and 769 to 801: the two bitmaps. Bit 0 of a bitmap is the
-- highest bit of its first byte.
pub mod Bits
pub mod Claim
use Prim.Native.Nat.{bit_and, bit_or}
use xjtu_oslab.Base.{
  ℕ, zero, suc, ◌+◌, ◌-◌, ◌*◌, ◌/◌, ◌%◌, ◌^◌, List, [], ◌∷◌, Option, none, some, ◌==◌, ltb,
  if◌then◌else◌, get_or, set, length, Bool, true, false,
}

-- The number of full bytes at the front, where the loop over the bytes stops.
unfoldable pub first_byte : List ℕ → ℕ
first_byte [] = 0
first_byte (b ∷ bs) = if b == 255 then suc (first_byte bs) else 0

-- The loop over the bits of a byte: the mask and the number at its end. A byte that is full would
-- keep it going for ever; here the fuel ends.
unfoldable pub first_bit : ℕ → ℕ → ℕ → ℕ → Option (ℕ × ℕ)
first_bit zero byte j num = none
first_bit (suc fuel) byte j num = elim (bit_or byte j == byte) [
  | true ↦ first_bit fuel byte (j / 2) (num + 1)
  | false ↦ some (j, num)
]

-- `bitmap[i] |= j`, with the number of that bit.
unfoldable pub mark : ℕ → List ℕ → Option (ℕ × ℕ) → Option (ℕ × List ℕ)
mark i bitmap none = none
mark i bitmap (some (j, num)) = some (8 * i + num, set bitmap i (bit_or (get_or bitmap i 0) j))

-- Lines 586 to 600 and 775 to 789: finds a clear bit and sets it. `none` where the C code would read
-- behind the bitmap, which is 512 bytes long and full.
unfoldable pub claim_bit : List ℕ → Option (ℕ × List ℕ)
claim_bit bitmap =
    let i = first_byte bitmap in
    if ltb i (length bitmap)
    then mark i bitmap (first_bit 9 (get_or bitmap i 0) 0b10000000 0)
    else none

-- Lines 199 to 202 and 227 to 230: clears bit `index`. `none` where the byte lies behind the bitmap.
unfoldable pub clear_bit : ℕ → List ℕ → Option (List ℕ)
clear_bit index bitmap =
    if ltb (index / 8) (length bitmap)
    then some (
        set bitmap (index / 8)
          (bit_and (get_or bitmap (index / 8) 0) (255 - 0b10000000 / 2 ^ (index % 8))))
    else none
