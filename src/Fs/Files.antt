-- ===== src/Fs/Files.antt =====
-- lab3/3.c, lines 609 to 751: writing to a file.
pub mod Append
pub mod Overflow
use xjtu_oslab.Base.{
  ℕ, zero, suc, ◌+◌, ◌-◌, ◌^◌, ◌%◌, List, [], ◌∷◌, ◌++◌, Option, none, true, false, ◌==◌, ltb, leb,
  get_or, length, take, drop,
}
use xjtu_oslab.Fs.Disk.{
  block_size, Inode, load_inode_table, update_inode_table, load_block_entry, update_block_entry,
}
use xjtu_oslab.Fs.State.{M, pure, ◌>>=◌, ◌>>◌, gets, puts, time, stuck, lift}
use xjtu_oslab.Fs.Directory.{put, string_of}
use xjtu_oslab.Fs.Pointers.{write_indirect}
use xjtu_oslab.Fs.Create.{first_block, link_block, index_block}

-- What `input` returns when the loop has read these bytes: at most 1024, with a NUL in place of the
-- last, as a text, which ends at its first NUL. For no byte it writes in front of the buffer.
unfoldable pub input : List ℕ → Option (List ℕ)
input [] = none
input (c ∷ cs) =
    let blen = length (take 1024 (c ∷ cs)) in string_of (take (blen - 1) (c ∷ cs) ++ 0 ∷ [])

-- `strncat` behind the text of the block.
unfoldable pub try_write : ℕ → List ℕ → M ℕ
try_write index data_to_write = do
  block ← gets (load_block_entry index)
  text ← lift (string_of block)
  elim (length text == block_size - 1) [
    | true ↦ pure 0
    | false ↦ do
      let written : ℕ = block_size - 1 - length text
      block' ← lift (put block (length text) (take written data_to_write ++ 0 ∷ []))
      puts (update_block_entry block' index)
      pure written
  ]

-- The branches from `b == 6` on.
unfoldable pub write_index : ℕ → Inode → M (Unit {0})
unfolding write_indirect
write_index b inode = elim (b == 6) [
  | true ↦ index_block inode
  | false ↦ elim (b == 7) [ true ↦ write_indirect inode | false ↦ pure tt ]
]

-- The loop over `b`, from `b = 8 - n` on, with the rest of the text and by how much `buf` has moved;
-- from 8 on its rounds do nothing.
unfoldable pub write_blocks : ℕ → ℕ → List ℕ → ℕ → Inode → M (ℕ × Inode)
unfolding try_write write_index
write_blocks zero b buf moved inode = pure (moved, inode)
write_blocks (suc n) b buf moved inode = elim (ltb b inode.i_blocks) [
  | false ↦ pure (moved, inode)
  | true ↦ elim (ltb b 6) [
    | true ↦ do
      written ← try_write (get_or inode.i_block b 0) buf
      elim (leb (length buf) written) [
        | true ↦ pure (moved, inode)
        | false ↦ do
          inode' ← link_block b inode
          write_blocks n (b + 1) (drop written buf) (moved + written) inode'
      ]
    | false ↦ write_index b inode >> write_blocks n (b + 1) buf moved inode
  ]
]

-- `free(buf)`: a pointer that has moved is not one that `malloc` returned.
unfoldable pub free_buffer : ℕ → M (Unit {0})
free_buffer moved = elim (moved == 0) [ true ↦ pure tt | false ↦ stuck ]

-- With the bytes that `input` reads.
unfoldable pub handle_write_inode : ℕ → List ℕ → M (Unit {0})
unfolding input write_blocks free_buffer
handle_write_inode index typed = do
  inode ← gets (load_inode_table index)
  atime ← time
  mtime ← time
  inode1 ← first_block (record inode { i_atime = atime; i_mtime = mtime })
  buf ← lift (input typed)
  let inode2 : Inode = record inode1 { i_size = (inode1.i_size + length buf + 1) % 2 ^ 32 }
  (moved, inode3) ← write_blocks 8 0 buf 0 inode2
  puts (update_inode_table inode3 index)
  free_buffer moved
