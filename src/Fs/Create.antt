-- ===== src/Fs/Create.antt =====
-- lab3/3.c, lines 290 to 342, 382 to 386 and 814 to 863: a new entry, its inode, and its place in a directory.
use xjtu_oslab.Base.{
  ℕ, zero, suc, ◌+◌, ◌-◌, ◌*◌, ◌^◌, ◌%◌, List, [], ◌∷◌, Option, none, some, Bool, true, false, ◌||◌,
  ◌==◌, ltb, get_or, set,
}
use Prim.Native.Nat.{bit_or}
use xjtu_oslab.Fs.Bytes.{Bytes, front, zero_bytes}
use xjtu_oslab.Fs.Disk.{
  data_block_count, Inode, load_inode_table, update_inode_table, load_block_entry,
  update_block_entry, load_group_desc, update_group_desc,
}
use xjtu_oslab.Fs.State.{
  FileType, file_type_code, ft_unknown, ft_reg_file, ft_dir, ft_chrdev, ft_blkdev, ft_fifo, ft_sock,
  ft_symlink, ok, M, pure, ◌>>=◌, ◌>>◌, gets, puts, time, stuck, lift,
}
pub use xjtu_oslab.Fs.Pointers.{same_name}
use xjtu_oslab.Fs.Pointers.{append_indirect}
use xjtu_oslab.Fs.Space.{new_block, new_inode}
use xjtu_oslab.Fs.Directory.{DirEntry, append_dir_entry, init_dir_entry_with_inode}

-- NULL where no inode is free.
unfoldable pub init_dir_entry : List ℕ → FileType → M (Option DirEntry)
init_dir_entry file_name type = do
  inode_id ← new_inode
  elim (inode_id == 0) [
    | true ↦ pure none
    | false ↦ lift (init_dir_entry_with_inode file_name type inode_id) >>= λ e. pure (some e)
  ]

-- The text from the first `.` on, or NULL.
unfoldable pub extension : List ℕ → Option (List ℕ)
extension [] = none
extension (c ∷ cs) = elim (c == 46) [ true ↦ some (c ∷ cs) | false ↦ extension cs ]

-- No extension, or `.exe`, `.bin` or `.com`.
unfoldable pub is_executable : Option (List ℕ) → Bool
is_executable none = true
is_executable (some ext) =
    same_name ext (46 ∷ 101 ∷ 120 ∷ 101 ∷ [])
    || (same_name ext (46 ∷ 98 ∷ 105 ∷ 110 ∷ []) || same_name ext (46 ∷ 99 ∷ 111 ∷ 109 ∷ []))

abbrev pub dot : List ℕ
dot = 46 ∷ []

abbrev pub dotdot : List ℕ
dotdot = 46 ∷ 46 ∷ []

-- Lines 840 to 851, for the block that was taken: a new directory holds itself and its parent.
unfoldable pub fill_directory : DirEntry → Inode → ℕ → M (Unit {0})
fill_directory e inode new_block_id = elim (new_block_id == data_block_count) [
  | true ↦ pure tt
  | false ↦ do
    parent ← λ fs. ok fs.current_dir fs
    dot_entry ← lift (init_dir_entry_with_inode dot ft_dir e.inode)
    dotdot_entry ← lift (init_dir_entry_with_inode dotdot ft_dir parent)
    (_, dot_entry') ← append_dir_entry dot_entry new_block_id
    (_, dotdot_entry') ← append_dir_entry dotdot_entry new_block_id
    puts (
        update_inode_table
          (record inode {
            i_blocks = 1;
            i_size = dot_entry'.rec_len + dotdot_entry'.rec_len;
            i_block = set inode.i_block 0 new_block_id;
          })
          e.inode)
]

-- `bg_used_dirs_count++`
unfoldable pub count_directory : Bytes → Bytes
count_directory d =
    let g = load_group_desc d in
    update_group_desc (record g { bg_used_dirs_count = (g.bg_used_dirs_count + 1) % 2 ^ 16 }) d

-- Lines 856 to 860, for an entry that is not a directory. The inode is stored only if it is
-- executable.
unfoldable pub finish_file : List ℕ → DirEntry → Inode → M (Unit {0})
unfolding extension is_executable
finish_file file_name e inode = elim (is_executable (extension file_name)) [
  | true ↦ puts (update_inode_table (record inode { i_mode = (inode.i_mode + 1) % 2 ^ 16 }) e.inode)
  | false ↦ pure tt
]

unfoldable pub finish_entry : List ℕ → FileType → DirEntry → Inode → M (Unit {0})
unfolding count_directory fill_directory
finish_entry file_name ft_dir e inode = do
  puts count_directory
  new_block_id ← new_block
  fill_directory e inode new_block_id
finish_entry file_name ft_unknown e inode = finish_file file_name e inode
finish_entry file_name ft_reg_file e inode = finish_file file_name e inode
finish_entry file_name ft_chrdev e inode = finish_file file_name e inode
finish_entry file_name ft_blkdev e inode = finish_file file_name e inode
finish_entry file_name ft_fifo e inode = finish_file file_name e inode
finish_entry file_name ft_sock e inode = finish_file file_name e inode
finish_entry file_name ft_symlink e inode = finish_file file_name e inode

unfoldable pub new_dir_entry : List ℕ → FileType → M (Option DirEntry)
unfolding init_dir_entry
new_dir_entry file_name type = do
  entry ← init_dir_entry file_name type
  elim entry [
    | none ↦ pure none
    | some e ↦ do
      inode ← gets (load_inode_table e.inode)
      let inode' : Inode = record inode { i_mode = bit_or inode.i_mode (file_type_code type * 256) }
      finish_entry file_name type e inode'
      pure (some e)
  ]

-- The inode with one more block, at position `b`.
abbrev pub with_block : ℕ → ℕ → Inode → Inode
with_block b block inode = record inode {
  i_blocks = (inode.i_blocks + 1) % 2 ^ 16;
  i_block = set inode.i_block b block;
}

-- Lines 296 to 300 and 648 to 652.
unfoldable pub first_block : Inode → M Inode
first_block inode = elim (inode.i_blocks == 0) [
  | true ↦ new_block >>= λ block. pure (with_block 0 block inode)
  | false ↦ pure inode
]

-- Lines 306 to 310 and 663 to 667: behind the last block a new one is linked.
unfoldable pub link_block : ℕ → Inode → M Inode
link_block b inode = elim (b == inode.i_blocks - 1) [
  | true ↦ new_block >>= λ block. pure (with_block (b + 1) block inode)
  | false ↦ pure inode
]

-- The branch `b == 6`. `allZero` has been cleared only in its first 8 bytes: if the block begins with
-- 8 zeros, the result of `memcmp` depends on memory that nothing has written; if not, neither the
-- test nor the loop finds an inode that is all zeros, and the block is stored as it was.
unfoldable pub index_block : Inode → M (Unit {0})
index_block inode = gets (load_block_entry (get_or inode.i_block 6 0)) >>= λ block.
    elim (same_name (front 8 block) (zero_bytes 8)) [
      | true ↦ stuck
      | false ↦ puts (update_block_entry block (get_or inode.i_block 6 0))
    ]

-- The branches from `b == 6` on.
unfoldable pub append_index : ℕ → DirEntry → Inode → M DirEntry
unfolding index_block append_indirect
append_index b e inode = elim (b == 6) [
  | true ↦ index_block inode >> pure e
  | false ↦ elim (b == 7) [ true ↦ append_indirect inode e | false ↦ pure e ]
]

-- The loop over `b`, from `b = 8 - n` on; from 8 on its rounds do nothing.
unfoldable pub append_blocks : ℕ → ℕ → DirEntry → Inode → M Inode
unfolding link_block append_index
append_blocks zero b e inode = pure inode
append_blocks (suc n) b e inode = elim (ltb b inode.i_blocks) [
  | false ↦ pure inode
  | true ↦ elim (ltb b 6) [
    | true ↦ do
      (done, e') ← append_dir_entry e (get_or inode.i_block b 0)
      elim (done == 0) [
        | false ↦ pure inode
        | true ↦ link_block b inode >>= λ inode'. append_blocks n (b + 1) e' inode'
      ]
    | false ↦ append_index b e inode >>= λ e'. append_blocks n (b + 1) e' inode
  ]
]

-- For NULL the loop, which has at least one round, reads through it.
unfoldable pub handle_append_directory : Option DirEntry → ℕ → M (Unit {0})
unfolding first_block append_blocks
handle_append_directory none index = stuck
handle_append_directory (some e) index = do
  inode ← gets (load_inode_table index)
  ctime ← time
  mtime ← time
  inode' ← first_block (record inode { i_ctime = ctime; i_mtime = mtime })
  inode'' ← append_blocks 8 0 e inode'
  puts (update_inode_table inode'' index)
