-- ===== src/Fs/Files/Overflow.antt =====
-- `handle_write_inode` of lab3/3.c where a text does not fit the first block.
use xjtu_oslab.Base.{◌<◌, ◌-◌, ◌≡◌, refl, All, ◌∷◌, ◌++◌, some, true}
use xjtu_oslab.Fs.Disk.{load_block_entry, load_inode_table, update_inode_table}
use xjtu_oslab.Fs.State.{lift, puts, ◌>>◌, time}
use xjtu_oslab.Fs.Create.{first_block}
use xjtu_oslab.Fs.Files.{input, free_buffer, handle_write_inode}
use xjtu_oslab.Fs.Files.Append.{try_write_lem}
use xjtu_oslab.Base.{
  ℕ, zero, suc, ◌+◌, ◌≤◌, arith, List, Bool, true, false, ◌==◌, ltb, leb, length, get_or, drop,
}
use xjtu_oslab.Fs.Disk.{Inode}
use xjtu_oslab.Fs.State.{FileSystem, Run, ok, undefined, M, and_then}
use xjtu_oslab.Fs.Create.{link_block}
use xjtu_oslab.Fs.Files.{write_index, try_write, write_blocks}

-- The pointer has moved by at least `k` at the end of the run, if it has an end.
abbrev Moved : ℕ → Run (ℕ × Inode) → Type 0
Moved k (ok (moved, inode) fs) = k ≤ moved
Moved k undefined = Unit {0}

and_then-Moved :
    (k : ℕ) {A : Type 0} (r : Run A) (f : A → M (ℕ × Inode))
    → ((a : A) (fs : FileSystem) → Moved k (f a fs))
    → Moved k (and_then r f)
and_then-Moved k (ok a fs) f h = h a fs
and_then-Moved k undefined f h = tt

Moved-cond :
    (k : ℕ) (b : Bool) (m n : M (ℕ × Inode)) (fs : FileSystem)
    → Moved k (m fs)
    → Moved k (n fs)
    → Moved k ((elim b as (λ _. M (ℕ × Inode)) [ true ↦ m | false ↦ n ]) fs)
Moved-cond k true m n fs h l = h
Moved-cond k false m n fs h l = l

write_blocks-Moved :
    (k n b : ℕ) (buf : List ℕ) (moved : ℕ) (inode : Inode) (fs : FileSystem)
    → k ≤ moved
    → Moved k (write_blocks n b buf moved inode fs)
unfolding write_blocks
write_blocks-Moved k zero b buf moved inode fs h = h
write_blocks-Moved k (suc n) b buf moved inode fs h =
    Moved-cond k (ltb b inode.i_blocks) _ _ fs
      (Moved-cond k (ltb b 6) _ _ fs
        (and_then-Moved k (try_write (get_or inode.i_block b 0) buf fs) _ λ written fs1.
          Moved-cond k (leb (length buf) written) _ _ fs1 h (
            and_then-Moved k (link_block b inode fs1) _ λ inode' fs2.
              write_blocks-Moved k n (b + 1) (drop written buf) (moved + written) inode' fs2
                (omega arith)))
        (and_then-Moved k (write_index b inode fs) _
          λ _ fs1. write_blocks-Moved k n (b + 1) buf moved inode fs1 h))
      h

free_buffer-undefined :
    (index : ℕ) (r : Run (ℕ × Inode))
    → Moved 1 r
    → and_then r (λ p. puts (update_inode_table p.1 index) >> free_buffer p.0) ≡ undefined
unfolding free_buffer
free_buffer-undefined index (ok (moved, inode) fs) h = rw (free_buffer, away) refl
  where
    away : (moved == 0) ≡ false
    away = ground (arith, h)
free_buffer-undefined index undefined h = refl

module _ (buf : List ℕ) (inode : Inode) (fs : FileSystem) (text rest : List ℕ) where
  first_round :
      All (λ b. 0 < b) buf
      → All (λ b. 0 < b) text
      → 0 < inode.i_blocks
      → load_block_entry (get_or inode.i_block 0 0) fs.disk ≡ text ++ 0 ∷ rest
      → length text < 511
      → 511 < length text + length buf
      → Moved 1 (write_blocks 8 0 buf 0 inode fs)
  unfolding write_blocks
  first_round plain plain' blocks holds room over =
      let (fs1, done, _, _) =
        try_write_lem fs (get_or inode.i_block 0 0) text rest buf holds plain' plain in
      let some_block : ltb 0 inode.i_blocks ≡ true = ground (arith, blocks) in
      let too_long : leb (length buf) (511 - length text) ≡ false = ground (arith, over) in
      rw (write_blocks, some_block, done, and_then, too_long)
        (and_then-Moved 1 (link_block 0 inode fs1) _ λ inode' fs2.
          write_blocks-Moved 1 7 1 (drop (511 - length text) buf) (0 + (511 - length text)) inode'
            fs2 (omega (arith, room)))

-- Where an inode has a block, the first holds a text, ended by a NUL, that leaves some of 511 bytes, and
-- the text that is typed is longer than what it leaves, `handle_write_inode` is undefined: it frees a
-- pointer that it has moved.
pub handle_write_inode-undefined :
    (fs : FileSystem) (index : ℕ) (typed buf text rest : List ℕ)
    → input typed ≡ some buf
    → All (λ b. 0 < b) buf
    → All (λ b. 0 < b) text
    → 0 < (load_inode_table index fs.disk).i_blocks
    → load_block_entry (get_or (load_inode_table index fs.disk).i_block 0 0) fs.disk
      ≡ text ++ 0 ∷ rest
    → length text < 511
    → 511 < length text + length buf
    → handle_write_inode index typed fs ≡ undefined
unfolding handle_write_inode first_block time
handle_write_inode-undefined fs index typed buf text rest reads plain plain' blocks holds room
      over =
    let inode = load_inode_table index fs.disk in
    let no_first : (inode.i_blocks == 0) ≡ false = ground (arith, blocks) in
    rw (handle_write_inode, no_first, reads, lift, and_then)
      (free_buffer-undefined index _
        (first_round buf _ _ text rest plain plain' blocks holds room over))
