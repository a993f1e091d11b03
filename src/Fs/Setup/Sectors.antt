-- ===== src/Fs/Setup/Sectors.antt =====
-- The loop of `initialize_disk` of lab3/3.c over the sectors.
use xjtu_oslab.Base.{ℕ, zero, suc, ◌-◌, ◌*◌, ◌≡◌, refl, arith, ltb, if◌then◌else◌, get_or}
use xjtu_oslab.Fs.Bytes.{Bytes, write, zero_bytes}
use xjtu_oslab.Fs.Bytes.Range.{length-zero_bytes}
use xjtu_oslab.Fs.Setup.{clear_sectors}

get_or-zero_bytes : (n i : ℕ) → get_or (zero_bytes n) i 0 ≡ 0
unfolding zero_bytes
get_or-zero_bytes zero i = refl
get_or-zero_bytes (suc n) zero = refl
get_or-zero_bytes (suc n) (suc i) = get_or-zero_bytes n i

-- The loop over the first `n` sectors of 512 bytes, each written in one piece, has the effect of one
-- definition for all bytes: those in front of offset 512 * n are 0, and the others as they were.
pub clear_sectors_lem :
    (n : ℕ) (d : Bytes) (p : ℕ) → clear_sectors n d p ≡ (if ltb p (n * 512) then 0 else d p)
unfolding clear_sectors write
clear_sectors_lem zero d p = ground arith
clear_sectors_lem (suc n) d p =
    ground
      (arith, clear_sectors_lem n d p, get_or-zero_bytes 512 (p - n * 512), length-zero_bytes 512)
