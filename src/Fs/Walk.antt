-- ===== src/Fs/Walk.antt =====
-- lab3/3.c, lines 397 to 577: the walks over the blocks of an inode, directly and through its two
-- index blocks. A walk ends early where the function returns a number other than 0.
pub mod Lookup
pub mod Keeps
pub mod Examples
use xjtu_oslab.Fs.State.{Row}
use xjtu_oslab.Base.{
  ℕ, zero, suc, ◌+◌, ◌%◌, List, [], ◌∷◌, true, false, ◌==◌, ltb, leb, if◌then◌else◌, get_or, length,
}
use xjtu_oslab.Fs.Bytes.{Bytes, front, behind, from_words}
use xjtu_oslab.Fs.Disk.{Inode, decode_inode, load_inode_table, update_inode_table, load_block_entry}
use xjtu_oslab.Fs.State.{
  FileType, ok, M, pure, ◌>>=◌, ◌>>◌, gets, puts, time, stuck, lift, byte, row,
}
use xjtu_oslab.Fs.Space.{reset_block_entry}
use xjtu_oslab.Fs.Directory.{search_file_name, delete_dir_entry, string_of, word_at}

-- The inodes in an index block, and the block numbers in a block of those.
unfoldable pub sub_inodes : ℕ → List ℕ → List Inode
sub_inodes zero bs = []
sub_inodes (suc n) bs = decode_inode (front 64 bs) ∷ sub_inodes n (behind 64 bs)

abbrev pub first_of : ℕ → M ℕ → M ℕ
first_of r rest = elim (r == 0) [ true ↦ rest | false ↦ pure r ]

-- The loop over `i_blocks` entries of `i_block`. Behind the array it is undefined.
unfoldable pub visit_blocks : (ℕ → M ℕ) → ℕ → List ℕ → M ℕ
visit_blocks func zero blocks = pure 0
visit_blocks func (suc n) [] = stuck
visit_blocks func (suc n) (b ∷ blocks) = func b >>= λ r. first_of r (visit_blocks func n blocks)

-- The loop over the inodes of an index block, up to one without blocks.
unfoldable pub visit_inodes : (ℕ → M ℕ) → List Inode → M ℕ
visit_inodes func [] = stuck
visit_inodes func (n ∷ ns) = elim (n.i_blocks == 0) [
  | true ↦ pure 0
  | false ↦ visit_blocks func n.i_blocks n.i_block >>= λ r. first_of r (visit_inodes func ns)
]

unfoldable pub load_inodes : ℕ → Bytes → List Inode
load_inodes index d = sub_inodes 8 (load_block_entry index d)

-- The loop over a block of block numbers, up to a 0.
unfoldable pub visit_pointers : (ℕ → M ℕ) → List ℕ → M ℕ
visit_pointers func [] = stuck
visit_pointers func (w ∷ ws) = elim (w == 0) [
  | true ↦ pure 0
  | false ↦ do
    inodes ← gets (load_inodes w)
    r ← visit_inodes func inodes
    first_of r (visit_pointers func ws)
]

-- One round of the loop over `b`.
unfoldable pub visit_index : (ℕ → M ℕ) → Inode → ℕ → M ℕ
visit_index func inode b = elim (ltb b 6) [
  | true ↦ func (get_or inode.i_block b 0)
  | false ↦ elim (b == 6) [
    | true ↦ gets (load_inodes (get_or inode.i_block 6 0)) >>= visit_inodes func
    | false ↦ elim (b == 7) [
      | true ↦
          gets (λ d. from_words 256 (load_block_entry (get_or inode.i_block 7 0) d))
          >>= visit_pointers func
      | false ↦ pure 0
    ]
  ]
]

unfoldable pub visit_inode : (ℕ → M ℕ) → Inode → ℕ → ℕ → M ℕ
visit_inode func inode zero b = pure 0
visit_inode func inode (suc n) b =
    visit_index func inode b >>= λ r. first_of r (visit_inode func inode n (b + 1))

-- The functions that are passed as `SearchFunc`.
pub data SearchFunc : Type 0 where
  searching deleting : SearchFunc

unfoldable pub apply_search : SearchFunc → List ℕ → FileType → ℕ → M ℕ
apply_search searching = search_file_name
apply_search deleting = delete_dir_entry

-- Lines 474 to 478.
unfoldable pub touch_searched : SearchFunc → ℕ → Inode → M (Unit {0})
touch_searched searching index inode = pure tt
touch_searched deleting index inode = do
  ctime ← time
  mtime ← time
  puts (update_inode_table (record inode { i_ctime = ctime; i_mtime = mtime }) index)

unfoldable pub handle_search_inode : List ℕ → FileType → ℕ → SearchFunc → M ℕ
unfolding touch_searched apply_search
handle_search_inode name file_type index func = do
  inode ← gets (load_inode_table index)
  touch_searched func index inode
  visit_inode (apply_search func name file_type) inode inode.i_blocks 0

-- The bytes up to the first NUL are printed; without one the loop leaves the block.
unfoldable pub print_bytes : List ℕ → M (Unit {0})
print_bytes [] = stuck
print_bytes (b ∷ bs) = elim (b == 0) [
  | true ↦ pure tt
  | false ↦ (λ fs. ok tt (record fs { printed = byte b ∷ fs.printed })) >> print_bytes bs
]

unfoldable pub print_file_in_block : ℕ → M (Unit {0})
unfolding print_bytes
print_file_in_block index = gets (load_block_entry index) >>= print_bytes

-- `d`, `b`, `c`, `p`, `s`, `l` or `-`
unfoldable pub type_letter_of : ℕ → ℕ
type_letter_of t = get_or (45 ∷ 45 ∷ 100 ∷ 99 ∷ 98 ∷ 112 ∷ 115 ∷ 108 ∷ []) t 45

-- The line of the entry at offset `i`; its permissions are those of the number, all from 7 on.
unfoldable pub row_of : List ℕ → ℕ → Inode → List ℕ → Row
unfolding type_letter_of
row_of block i inode name = record {
  name = name;
  type_letter = type_letter_of (get_or block (i + 5) 0);
  rights = if ltb (inode.i_mode % 256) 7 then inode.i_mode % 256 else 7;
  size = inode.i_size;
  ctime = inode.i_ctime;
  atime = inode.i_atime;
  mtime = inode.i_mtime;
}

unfoldable pub print_dir_entry : List ℕ → ℕ → M (Unit {0})
unfolding row_of
print_dir_entry block i = do
  inode ← gets (load_inode_table (word_at block i))
  name ← lift (string_of (behind (i + 6) block))
  λ fs. ok tt (record fs { printed = row (row_of block i inode name) ∷ fs.printed })

-- The fields are read in place, so that only they must lie inside the block. The offset grows with
-- each entry, unless a length is 0: then the loop has no end.
unfoldable pub print_from : ℕ → List ℕ → ℕ → M (Unit {0})
unfolding print_dir_entry
print_from zero block i = stuck
print_from (suc fuel) block i = elim (leb (i + 2) (length block)) [
  | false ↦ stuck
  | true ↦ elim (word_at block i == 0) [
    | true ↦ pure tt
    | false ↦ print_dir_entry block i >> print_from fuel block (i + word_at block (i + 2))
  ]
]

unfoldable pub print_dir_entries_in_block : ℕ → M (Unit {0})
print_dir_entries_in_block index = gets (load_block_entry index) >>= λ block. print_from 512 block 0

-- The functions that are passed as `OperationFunc`.
pub data OperationFunc : Type 0 where
  printing listing resetting : OperationFunc

unfoldable pub apply_operation : OperationFunc → ℕ → M (Unit {0})
apply_operation printing = print_file_in_block
apply_operation listing = print_dir_entries_in_block
apply_operation resetting = reset_block_entry

unfoldable pub touch_read : OperationFunc → ℕ → Inode → M (Unit {0})
touch_read printing index inode = do
  atime ← time
  puts (update_inode_table (record inode { i_atime = atime }) index)
touch_read listing index inode = pure tt
touch_read resetting index inode = pure tt

-- The functions return nothing here, and the walk goes over all blocks.
unfoldable pub handle_read_inode : ℕ → OperationFunc → M (Unit {0})
unfolding touch_read apply_operation
handle_read_inode index func = do
  inode ← gets (load_inode_table index)
  touch_read func index inode
  _ ← visit_inode (λ b. apply_operation func b >> pure 0) inode inode.i_blocks 0
  pure tt
