-- ===== src/Fs/Disk/RoundTrip.antt =====
-- What is stored on the image of lab3/3.c is loaded again, and the regions do not overlap.
use Prim.Native.Nat.{◌^◌}
use xjtu_oslab.Base.{
  ◌∙◌, ap, ◌≢◌, ℕ, ◌+◌, ◌≤◌, ◌<◌, ◌≡◌, refl, List, [], ◌∷◌, ◌++◌, arith, length, All, length-append,
}
use xjtu_oslab.Fs.Bytes.{Bytes, to_le, front, behind, to_words}
use xjtu_oslab.Fs.Bytes.Laws.{
  read-write_apart, read-write_length, length-to_le, from_le-to_le, front-append, behind-append,
  from_words-to_words,
}
use xjtu_oslab.Fs.Bytes.Range.{AreBytes}
use xjtu_oslab.Fs.Disk.{
  block_size, update_block_bitmap, update_inode_bitmap, update_block_entry, inode_count,
  load_block_bitmap, load_inode_bitmap, load_block_entry, GroupDesc, Inode, encode_group_desc,
  decode_group_desc, encode_inode, decode_inode, update_inode_table, load_inode_table,
  update_group_desc, load_group_desc,
}

-- The fields fit their C types.
pub record InodeFits (n : Inode) : Type 0 where
  pub i_mode : n.i_mode < 256 ^ 2
  pub i_blocks : n.i_blocks < 256 ^ 2
  pub i_size : n.i_size < 256 ^ 4
  pub i_atime : n.i_atime < 256 ^ 8
  pub i_ctime : n.i_ctime < 256 ^ 8
  pub i_mtime : n.i_mtime < 256 ^ 8
  pub i_dtime : n.i_dtime < 256 ^ 8
  pub i_block : (length n.i_block ≡ 8) × All (λ w. w < 2 ^ 16) n.i_block
  pub i_pad : length n.i_pad ≡ 8

front-to_le : (k v : ℕ) (bs : List ℕ) → front k (to_le k v ++ bs) ≡ to_le k v
front-to_le k v bs = front-append k (to_le k v) bs (length-to_le k v)

behind-to_le : (k v : ℕ) (bs : List ℕ) → behind k (to_le k v ++ bs) ≡ bs
behind-to_le k v bs = behind-append k (to_le k v) bs (length-to_le k v)

length-to_words : (ws : List ℕ) → length (to_words ws) ≡ length ws + length ws
unfolding to_words to_le
length-to_words [] = refl
length-to_words (w ∷ ws) = omega (arith, length-to_words ws)

length-encode_inode : (n : Inode) → InodeFits n → length (encode_inode n) ≡ 64
unfolding encode_inode
length-encode_inode n f =
    omega (arith, length-append {0}, length-to_le, length-to_words, f.i_block.0)

decode-encode_inode : (n : Inode) → InodeFits n → decode_inode (encode_inode n) ≡ n
unfolding decode_inode encode_inode
decode-encode_inode n f =
    simp (front-to_le, behind-to_le)
      (rw (
        from_le-to_le 2 n.i_mode f.i_mode,
        from_le-to_le 2 n.i_blocks f.i_blocks,
        from_le-to_le 4 n.i_size f.i_size,
        from_le-to_le 8 n.i_atime f.i_atime,
        from_le-to_le 8 n.i_ctime f.i_ctime,
        from_le-to_le 8 n.i_mtime f.i_mtime,
        from_le-to_le 8 n.i_dtime f.i_dtime,
        from_words-to_words 8 n.i_block n.i_pad f.i_block.0 f.i_block.1,
        behind-append 16 (to_words n.i_block) n.i_pad words,
      ))
  where
    words : length (to_words n.i_block) ≡ 16
    words = omega (arith, length-to_words n.i_block, f.i_block.0)

pub record GroupDescFits (g : GroupDesc) : Type 0 where
  pub bg_volume_name : length g.bg_volume_name ≡ 16
  pub bg_block_bitmap : g.bg_block_bitmap < 256 ^ 2
  pub bg_inode_bitmap : g.bg_inode_bitmap < 256 ^ 2
  pub bg_inode_table : g.bg_inode_table < 256 ^ 2
  pub bg_free_blocks_count : g.bg_free_blocks_count < 256 ^ 2
  pub bg_free_inodes_count : g.bg_free_inodes_count < 256 ^ 2
  pub bg_used_dirs_count : g.bg_used_dirs_count < 256 ^ 2
  pub password : length g.password ≡ 20
  pub bg_pad : length g.bg_pad ≡ 464
  pub texts : AreBytes g.bg_volume_name × AreBytes g.password × AreBytes g.bg_pad

pub length-encode_group_desc :
    (g : GroupDesc) → GroupDescFits g → length (encode_group_desc g) ≡ 512
unfolding encode_group_desc
length-encode_group_desc g f =
    omega (arith, length-append {0}, length-to_le, f.bg_volume_name, f.password, f.bg_pad)

decode-encode_group_desc :
    (g : GroupDesc) → GroupDescFits g → decode_group_desc (encode_group_desc g) ≡ g
unfolding decode_group_desc encode_group_desc
decode-encode_group_desc g f =
    rw
      (
        front-append 16 g.bg_volume_name _ f.bg_volume_name,
        behind-append 16 g.bg_volume_name _ f.bg_volume_name,
      )
      (simp (front-to_le, behind-to_le)
        (rw (
          from_le-to_le 2 g.bg_block_bitmap f.bg_block_bitmap,
          from_le-to_le 2 g.bg_inode_bitmap f.bg_inode_bitmap,
          from_le-to_le 2 g.bg_inode_table f.bg_inode_table,
          from_le-to_le 2 g.bg_free_blocks_count f.bg_free_blocks_count,
          from_le-to_le 2 g.bg_free_inodes_count f.bg_free_inodes_count,
          from_le-to_le 2 g.bg_used_dirs_count f.bg_used_dirs_count,
          front-append 20 g.password g.bg_pad f.password,
          behind-append 20 g.password g.bg_pad f.password,
        )))

-- A number of an entry of the inode table.
abbrev pub IsInodeId : ℕ → Type 0
IsInodeId i = (1 ≤ i) × (i ≤ inode_count)

-- An inode that is stored under its number is loaded again; no other inode, no bitmap, not the group
-- descriptor and no data block changes.
pub update_inode_table_lem :
    (d : Bytes) (n : Inode) (i : ℕ)
    → InodeFits n
    → IsInodeId i
    → (load_inode_table i (update_inode_table n i d) ≡ n)
      × ((j : ℕ)
          → IsInodeId j
          → j ≢ i
          → load_inode_table j (update_inode_table n i d) ≡ load_inode_table j d)
      × (load_group_desc (update_inode_table n i d) ≡ load_group_desc d)
      × (load_block_bitmap (update_inode_table n i d) ≡ load_block_bitmap d)
      × (load_inode_bitmap (update_inode_table n i d) ≡ load_inode_bitmap d)
      × ((b : ℕ) → load_block_entry b (update_inode_table n i d) ≡ load_block_entry b d)
unfolding update_inode_table load_inode_table load_group_desc load_block_bitmap load_inode_bitmap
    load_block_entry
update_inode_table_lem d n i f range = (
  ap decode_inode (read-write_length d _ (encode_inode n) 64 size) ∙ decode-encode_inode n f,
  λ j other ne. ap decode_inode (read-write_apart d _ (encode_inode n) _ 64 (omega (arith, size))),
  ap decode_group_desc (read-write_apart d _ (encode_inode n) _ 512 (omega (arith, size))),
  read-write_apart d _ (encode_inode n) _ 512 (omega (arith, size)),
  read-write_apart d _ (encode_inode n) _ 512 (omega (arith, size)),
  λ b. read-write_apart d _ (encode_inode n) _ 512 (omega (arith, size)),
)
  where
    size : length (encode_inode n) ≡ 64
    size = length-encode_inode n f

-- A group descriptor that is stored is loaded again; the bitmaps, the inodes and the data blocks do
-- not change.
pub update_group_desc_lem :
    (d : Bytes) (g : GroupDesc)
    → GroupDescFits g
    → (load_group_desc (update_group_desc g d) ≡ g)
      × (load_block_bitmap (update_group_desc g d) ≡ load_block_bitmap d)
      × (load_inode_bitmap (update_group_desc g d) ≡ load_inode_bitmap d)
      × ((j : ℕ) → IsInodeId j → load_inode_table j (update_group_desc g d) ≡ load_inode_table j d)
      × ((b : ℕ) → load_block_entry b (update_group_desc g d) ≡ load_block_entry b d)
unfolding update_group_desc load_inode_table load_group_desc load_block_bitmap load_inode_bitmap
    load_block_entry
update_group_desc_lem d g f = (
  ap decode_group_desc (read-write_length d _ (encode_group_desc g) 512 size)
      ∙ decode-encode_group_desc g f,
  read-write_apart d _ (encode_group_desc g) _ 512 (omega (arith, size)),
  read-write_apart d _ (encode_group_desc g) _ 512 (omega (arith, size)),
  λ j range.
      ap decode_inode (read-write_apart d _ (encode_group_desc g) _ 64 (omega (arith, size))),
  λ b. read-write_apart d _ (encode_group_desc g) _ 512 (omega (arith, size)),
)
  where
    size : length (encode_group_desc g) ≡ 512
    size = length-encode_group_desc g f

-- A block bitmap of 512 bytes that is stored is loaded again; the group descriptor, the inode bitmap,
-- the inodes and the data blocks do not change.
pub update_block_bitmap_lem :
    (d : Bytes) (bitmap : List ℕ)
    → length bitmap ≡ block_size
    → (load_block_bitmap (update_block_bitmap bitmap d) ≡ bitmap)
      × (load_group_desc (update_block_bitmap bitmap d) ≡ load_group_desc d)
      × (load_inode_bitmap (update_block_bitmap bitmap d) ≡ load_inode_bitmap d)
      × ((j : ℕ)
          → IsInodeId j
          → load_inode_table j (update_block_bitmap bitmap d) ≡ load_inode_table j d)
      × ((b : ℕ) → load_block_entry b (update_block_bitmap bitmap d) ≡ load_block_entry b d)
unfolding update_block_bitmap load_inode_table load_group_desc load_block_bitmap load_inode_bitmap
    load_block_entry
update_block_bitmap_lem d bitmap size = (
  read-write_length d _ bitmap 512 size,
  ap decode_group_desc (read-write_apart d _ bitmap _ 512 (omega (arith, size))),
  read-write_apart d _ bitmap _ 512 (omega (arith, size)),
  λ j range. ap decode_inode (read-write_apart d _ bitmap _ 64 (omega (arith, size))),
  λ b. read-write_apart d _ bitmap _ 512 (omega (arith, size)),
)

-- The same for an inode bitmap.
pub update_inode_bitmap_lem :
    (d : Bytes) (bitmap : List ℕ)
    → length bitmap ≡ block_size
    → (load_inode_bitmap (update_inode_bitmap bitmap d) ≡ bitmap)
      × (load_group_desc (update_inode_bitmap bitmap d) ≡ load_group_desc d)
      × (load_block_bitmap (update_inode_bitmap bitmap d) ≡ load_block_bitmap d)
      × ((j : ℕ)
          → IsInodeId j
          → load_inode_table j (update_inode_bitmap bitmap d) ≡ load_inode_table j d)
      × ((b : ℕ) → load_block_entry b (update_inode_bitmap bitmap d) ≡ load_block_entry b d)
unfolding update_inode_bitmap load_inode_table load_group_desc load_block_bitmap load_inode_bitmap
    load_block_entry
update_inode_bitmap_lem d bitmap size = (
  read-write_length d _ bitmap 512 size,
  ap decode_group_desc (read-write_apart d _ bitmap _ 512 (omega (arith, size))),
  read-write_apart d _ bitmap _ 512 (omega (arith, size)),
  λ j range. ap decode_inode (read-write_apart d _ bitmap _ 64 (omega (arith, size))),
  λ b. read-write_apart d _ bitmap _ 512 (omega (arith, size)),
)

-- A data block of 512 bytes that is stored is loaded again; no other block, no inode, no bitmap and
-- not the group descriptor changes.
pub update_block_entry_lem :
    (d : Bytes) (entry : List ℕ) (i : ℕ)
    → length entry ≡ block_size
    → (load_block_entry i (update_block_entry entry i d) ≡ entry)
      × ((b : ℕ) → b ≢ i → load_block_entry b (update_block_entry entry i d) ≡ load_block_entry b d)
      × (load_group_desc (update_block_entry entry i d) ≡ load_group_desc d)
      × (load_block_bitmap (update_block_entry entry i d) ≡ load_block_bitmap d)
      × (load_inode_bitmap (update_block_entry entry i d) ≡ load_inode_bitmap d)
      × ((j : ℕ)
          → IsInodeId j
          → load_inode_table j (update_block_entry entry i d) ≡ load_inode_table j d)
unfolding update_block_entry load_inode_table load_group_desc load_block_bitmap load_inode_bitmap
    load_block_entry
update_block_entry_lem d entry i size = (
  read-write_length d _ entry 512 size,
  λ b ne. read-write_apart d _ entry _ 512 (omega (arith, size)),
  ap decode_group_desc (read-write_apart d _ entry _ 512 (omega (arith, size))),
  read-write_apart d _ entry _ 512 (omega (arith, size)),
  read-write_apart d _ entry _ 512 (omega (arith, size)),
  λ j range. ap decode_inode (read-write_apart d _ entry _ 64 (omega (arith, size))),
)
