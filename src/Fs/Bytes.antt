-- ===== src/Fs/Bytes.antt =====
-- lab3/3.c works on a disk image, a file of bytes, and on structs in the byte order of x86.
pub mod Laws
pub mod Range
pub mod Slices
use xjtu_oslab.Base.{
  ℕ, zero, suc, ◌+◌, ◌-◌, ◌*◌, ◌/◌, ◌%◌, List, [], ◌∷◌, ◌++◌, ltb, leb, if◌then◌else◌, ◌&&◌, length,
  get_or,
}

-- The content of `FS.txt`: the byte at each offset.
abbrev pub Bytes : Type 0
Bytes = ℕ → ℕ

-- `fseek` to the offset and `fwrite`.
unfoldable pub write : Bytes → ℕ → List ℕ → Bytes
write d o bs p = if leb o p && ltb p (o + length bs) then get_or bs (p - o) 0 else d p

-- `fseek` to the offset and `fread` of that many bytes.
unfoldable pub read : Bytes → ℕ → ℕ → List ℕ
read d o zero = []
read d o (suc n) = d o ∷ read d (o + 1) n

-- The `k` bytes of an unsigned integer, the lowest first, and the integer of such bytes.
unfoldable pub to_le : ℕ → ℕ → List ℕ
to_le zero v = []
to_le (suc k) v = (v % 256) ∷ to_le k (v / 256)

unfoldable pub from_le : List ℕ → ℕ
from_le [] = 0
from_le (b ∷ bs) = b + 256 * from_le bs

-- `memset(p, 0, n)`
unfoldable pub zero_bytes : ℕ → List ℕ
zero_bytes zero = []
zero_bytes (suc n) = 0 ∷ zero_bytes n

-- The first `n` bytes of a struct's bytes, and those behind them.
unfoldable pub front : ℕ → List ℕ → List ℕ
front zero bs = []
front (suc n) [] = []
front (suc n) (b ∷ bs) = b ∷ front n bs

unfoldable pub behind : ℕ → List ℕ → List ℕ
behind zero bs = bs
behind (suc n) [] = []
behind (suc n) (b ∷ bs) = behind n bs

-- An array of `uint16_t`.
unfoldable pub to_words : List ℕ → List ℕ
unfolding to_le
to_words [] = []
to_words (w ∷ ws) = to_le 2 w ++ to_words ws

unfoldable pub from_words : ℕ → List ℕ → List ℕ
from_words zero bs = []
from_words (suc n) bs = from_le (front 2 bs) ∷ from_words n (behind 2 bs)
