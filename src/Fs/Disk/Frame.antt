-- ===== src/Fs/Disk/Frame.antt =====
-- What each load of lab3/3.c returns after an update of the image.
use xjtu_oslab.Base.{
  ℕ, ◌≡◌, ◌≢◌, arith, List, length, Bool-cases, false, inl, inr, ◌==◌, ==_iff, if◌then◌else◌, ap,
  ◌∙◌,
}
use xjtu_oslab.Fs.Bytes.{Bytes}
use xjtu_oslab.Fs.Disk.{
  block_size, GroupDesc, Inode, load_group_desc, update_group_desc, load_block_bitmap,
  load_inode_bitmap, load_inode_table, update_inode_table, load_block_entry, update_block_entry,
}
use xjtu_oslab.Fs.Disk.RoundTrip.{
  InodeFits, GroupDescFits, IsInodeId, update_inode_table_lem, update_group_desc_lem,
  update_block_entry_lem,
}

ne_of_test : (a b : ℕ) → (a == b) ≡ false → a ≢ b
ne_of_test a b e = ground arith

-- After the update of inode `i`, a number from 1 to 4096, with an inode whose fields fit their types,
-- the load of inode `j` of that range returns the stored inode if `j` is `i`, and what it returned
-- before otherwise. The group descriptor, both bitmaps and every data block load as before.
pub load-update_inode_table :
    (d : Bytes) (n : Inode) (i j b : ℕ)
    → InodeFits n
    → IsInodeId i
    → IsInodeId j
    → (load_inode_table j (update_inode_table n i d) ≡ (if j == i then n else load_inode_table j d))
      × (load_group_desc (update_inode_table n i d) ≡ load_group_desc d)
      × (load_block_bitmap (update_inode_table n i d) ≡ load_block_bitmap d)
      × (load_inode_bitmap (update_inode_table n i d) ≡ load_inode_bitmap d)
      × (load_block_entry b (update_inode_table n i d) ≡ load_block_entry b d)
load-update_inode_table d n i j b f range other =
    let (same, apart, group, blocks, inodes, entries) = update_inode_table_lem d n i f range in
    let read : load_inode_table j (update_inode_table n i d)
        ≡ (if j == i then n else load_inode_table j d) =
      elim (Bool-cases (j == i)) [
        | inl e ↦ rw e (
            ap (λ (k : ℕ). load_inode_table k (update_inode_table n i d)) ((==_iff j i).0 e) ∙ same)
        | inr e ↦ rw e (apart j other (ne_of_test j i e))
      ] in
    (read, group, blocks, inodes, entries b)

-- After the update of data block `i` with 512 bytes, the load of a block `b` returns these bytes if
-- `b` is `i`, and what it returned before otherwise. The group descriptor, both bitmaps and each
-- inode, of a number `j` from 1 to 4096, load as before.
pub load-update_block_entry :
    (d : Bytes) (entry : List ℕ) (i b j : ℕ)
    → length entry ≡ block_size
    → IsInodeId j
    → (load_block_entry b (update_block_entry entry i d)
        ≡ (if b == i then entry else load_block_entry b d))
      × (load_group_desc (update_block_entry entry i d) ≡ load_group_desc d)
      × (load_block_bitmap (update_block_entry entry i d) ≡ load_block_bitmap d)
      × (load_inode_bitmap (update_block_entry entry i d) ≡ load_inode_bitmap d)
      × (load_inode_table j (update_block_entry entry i d) ≡ load_inode_table j d)
load-update_block_entry d entry i b j size range =
    let (same, apart, group, blocks, inodes, table) = update_block_entry_lem d entry i size in
    let read : load_block_entry b (update_block_entry entry i d)
        ≡ (if b == i then entry else load_block_entry b d) =
      elim (Bool-cases (b == i)) [
        | inl e ↦ rw e (
            ap (λ (k : ℕ). load_block_entry k (update_block_entry entry i d)) ((==_iff b i).0 e)
            ∙ same)
        | inr e ↦ rw e (apart b (ne_of_test b i e))
      ] in
    (read, group, blocks, inodes, table j range)

-- A group descriptor whose fields fit their types is loaded as it was stored; both bitmaps, each
-- inode, of a number `j` from 1 to 4096, and every data block load as before.
pub load-update_group_desc :
    (d : Bytes) (g : GroupDesc) (j b : ℕ)
    → GroupDescFits g
    → IsInodeId j
    → (load_group_desc (update_group_desc g d) ≡ g)
      × (load_block_bitmap (update_group_desc g d) ≡ load_block_bitmap d)
      × (load_inode_bitmap (update_group_desc g d) ≡ load_inode_bitmap d)
      × (load_inode_table j (update_group_desc g d) ≡ load_inode_table j d)
      × (load_block_entry b (update_group_desc g d) ≡ load_block_entry b d)
load-update_group_desc d g j b f range =
    let (same, blocks, inodes, table, entries) = update_group_desc_lem d g f in
    (same, blocks, inodes, table j range, entries b)
