-- ===== src/Fs/Space/Reset.antt =====
-- What `reset_inode_table` of lab3/3.c does to the image.
use xjtu_oslab.Base.{ℕ, ◌+◌, ◌%◌, ◌<◌, ◌≡◌, refl, arith, ◌∙◌, sym, ◌==◌, if◌then◌else◌, replicate}
use xjtu_oslab.Fs.Bytes.{Bytes, write, to_le, to_words, zero_bytes}
use xjtu_oslab.Fs.Disk.{
  inode_count, Inode, encode_inode, inode_offset, entry_of, load_group_desc, load_block_bitmap,
  load_inode_bitmap, update_inode_bitmap, load_inode_table, update_inode_table, load_block_entry,
}
use xjtu_oslab.Fs.Disk.RoundTrip.{InodeFits, update_inode_bitmap_lem}
use xjtu_oslab.Fs.Disk.Frame.{load-update_inode_table}
use xjtu_oslab.Fs.Bitmap.Claim.{Cleared, clear_bit_lem}
use xjtu_oslab.Fs.State.{FileSystem, ok}
use xjtu_oslab.Fs.Space.{reset_inode_table, store_bitmap}
use xjtu_oslab.Fs.Space.Block.{inode_of}
use xjtu_oslab.Fs.Space.Entry.{length-load_inode_bitmap, load_inode_bitmap-AreBytes}

-- An entry of the table that is all zeros.
abbrev pub blank : Inode
blank = record {
  i_mode = 0;
  i_blocks = 0;
  i_size = 0;
  i_atime = 0;
  i_ctime = 0;
  i_mtime = 0;
  i_dtime = 0;
  i_block = replicate 8 0;
  i_pad = replicate 8 0;
}

blank-InodeFits : InodeFits blank
blank-InodeFits = record {
  i_mode = omega arith;
  i_blocks = omega arith;
  i_size = omega arith;
  i_atime = omega arith;
  i_ctime = omega arith;
  i_mtime = omega arith;
  i_dtime = omega arith;
  i_block = (refl, ground arith);
  i_pad = refl;
}

update-blank :
    (index : ℕ) (d : Bytes)
    → update_inode_table blank index d ≡ write d (inode_offset index) (zero_bytes 64)
unfolding update_inode_table encode_inode to_words to_le zero_bytes
update-blank index d = refl

-- The entry of inode `k + 1` is all zeros and its bit is clear. Nothing else that is loaded from the
-- image has changed, the counter of free inodes included.
pub record InodeReset (d : Bytes) (k : ℕ) (d' : Bytes) : Type 0 where
  pub cleared : Cleared (load_inode_bitmap d) k (load_inode_bitmap d')
  pub inodes :
      (e : ℕ)
      → load_inode_table (e % inode_count + 1) d'
        ≡ (if e % inode_count + 1 == k + 1 then blank else load_inode_table (e % inode_count + 1) d)
  pub same_group : load_group_desc d' ≡ load_group_desc d
  pub same_block_bitmap : load_block_bitmap d' ≡ load_block_bitmap d
  pub same_blocks : (b : ℕ) → load_block_entry b d' ≡ load_block_entry b d

-- On an image of bytes `reset_inode_table` of an inode number from 1 to 4096 is defined: it fills the
-- entry of the table with zeros and frees its bit, and changes nothing else that is loaded from the
-- image. In particular the counter of free inodes stays, which the callers raise.
pub reset_inode_table_lem :
    (fs : FileSystem) (k : ℕ)
    → ((p : ℕ) → fs.disk p < 256)
    → k < inode_count
    → (d : Bytes) × (reset_inode_table (k + 1) fs ≡ ok tt (record fs { disk = d }))
      × InodeReset fs.disk k d
unfolding reset_inode_table store_bitmap
reset_inode_table_lem fs k h lt =
    let d = update_inode_table blank (k + 1) fs.disk in
    let table = λ (e b : ℕ).
      load-update_inode_table fs.disk blank (k + 1) (e % inode_count + 1) b blank-InodeFits
        (omega arith) (inode_of e) in
    let (_, t2, t3, t4, _) = table 0 0 in
    let size = length-load_inode_bitmap fs.disk in
    let (bitmap, eq, cleared) =
      clear_bit_lem (load_inode_bitmap fs.disk) k (load_inode_bitmap-AreBytes fs.disk h)
        (omega (arith, size)) in
    let (b1, b2, b3, b4, b5) = update_inode_bitmap_lem d bitmap (cleared.same_length ∙ size) in
    let here : entry_of (k + 1) ≡ k = omega arith in
    (
      update_inode_bitmap bitmap d,
      rw (sym (update-blank (k + 1) fs.disk), t4, here, eq),
      record {
        cleared = rw b1 cleared;
        inodes = λ e. b4 _ (inode_of e) ∙ (table e 0).0;
        same_group = b2 ∙ t2;
        same_block_bitmap = b3 ∙ t3;
        same_blocks = λ b. b5 b ∙ (table 0 b).4;
      },
    )
