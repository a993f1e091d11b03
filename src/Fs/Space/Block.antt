-- ===== src/Fs/Space/Block.antt =====
-- What `new_block` and `reset_block_entry` of lab3/3.c do to the image.
use xjtu_oslab.Base.{
  ◌%◌, ◌+◌, if◌then◌else◌, ◌⊎◌, ℕ, ◌-◌, ◌<◌, ◌≡◌, arith, List, length, ◌∙◌, Bool-cases, inl, inr,
  ◌==◌,
}
use xjtu_oslab.Fs.Bytes.{zero_bytes, Bytes}
use xjtu_oslab.Fs.Bytes.Range.{length-zero_bytes, write-lt, AreBytes, length-read, read-AreBytes}
use xjtu_oslab.Fs.Disk.Range.{encode_group_desc-AreBytes, load_group_desc-Fits}
use xjtu_oslab.Fs.Disk.{
  inode_count, data_block_count, block_size, GroupDesc, load_group_desc, update_group_desc,
  load_block_bitmap, update_block_bitmap, load_inode_bitmap, load_inode_table, load_block_entry,
  update_block_entry,
}
use xjtu_oslab.Fs.Disk.Frame.{load-update_block_entry}
use xjtu_oslab.Fs.Disk.RoundTrip.{
  GroupDescFits, IsInodeId, update_group_desc_lem, update_block_bitmap_lem,
}
use xjtu_oslab.Fs.Bitmap.Claim.{zeros, Claimed, claim_bit_lem, Cleared, clear_bit_lem}
use xjtu_oslab.Fs.State.{FileSystem, ok}
use xjtu_oslab.Fs.Space.{take_block, new_block, reset_block_entry, store_bitmap}

-- The image holds bytes, and the group descriptor counts the clear bits of both bitmaps.
pub record IsCounted (d : Bytes) : Type 0 where
  pub bytes : (p : ℕ) → d p < 256
  pub blocks : (load_group_desc d).bg_free_blocks_count ≡ zeros (load_block_bitmap d)
  pub inodes : (load_group_desc d).bg_free_inodes_count ≡ zeros (load_inode_bitmap d)

-- `k` has been taken: its bit, the first clear one, is set and the counter is one less. Nothing else
-- that is loaded from the image has changed; `e % inode_count + 1` are the numbers of inodes.
pub record BlockTaken (d : Bytes) (k : ℕ) (d' : Bytes) : Type 0 where
  pub in_range : k < data_block_count
  pub claimed : Claimed (load_block_bitmap d) k (load_block_bitmap d')
  pub counted : IsCounted d'
  pub group : load_group_desc d' ≡ record (load_group_desc d) {
    bg_free_blocks_count = (load_group_desc d).bg_free_blocks_count - 1;
  }
  pub same_inode_bitmap : load_inode_bitmap d' ≡ load_inode_bitmap d
  pub same_inodes :
      (e : ℕ) → load_inode_table (e % inode_count + 1) d' ≡ load_inode_table (e % inode_count + 1) d
  pub same_blocks : (b : ℕ) → load_block_entry b d' ≡ load_block_entry b d

length-load_block_bitmap : (d : Bytes) → length (load_block_bitmap d) ≡ block_size
unfolding load_block_bitmap
length-load_block_bitmap d = length-read d 512 512

load_block_bitmap-AreBytes : (d : Bytes) → ((p : ℕ) → d p < 256) → AreBytes (load_block_bitmap d)
unfolding load_block_bitmap
load_block_bitmap-AreBytes d h = read-AreBytes d 512 512 h

abbrev one_less : GroupDesc → GroupDesc
one_less g = record g { bg_free_blocks_count = g.bg_free_blocks_count - 1 }

pub inode_of : (e : ℕ) → IsInodeId (e % inode_count + 1)
inode_of e = omega arith

-- The image after `take_block`.
abbrev taken : Bytes → List ℕ → Bytes
taken d bitmap = update_group_desc (one_less (load_group_desc d)) (update_block_bitmap bitmap d)

one_less-Fits : {g : GroupDesc} → GroupDescFits g → GroupDescFits (one_less g)
one_less-Fits f = record {
  bg_volume_name = f.bg_volume_name;
  bg_block_bitmap = f.bg_block_bitmap;
  bg_inode_bitmap = f.bg_inode_bitmap;
  bg_inode_table = f.bg_inode_table;
  bg_free_blocks_count = omega arith;
  bg_free_inodes_count = f.bg_free_inodes_count;
  bg_used_dirs_count = f.bg_used_dirs_count;
  password = f.password;
  bg_pad = f.bg_pad;
  texts = f.texts;
}

taken-lt :
    (d : Bytes) (bitmap : List ℕ)
    → ((p : ℕ) → d p < 256)
    → AreBytes bitmap
    → GroupDescFits (one_less (load_group_desc d))
    → (p : ℕ) → taken d bitmap p < 256
unfolding update_group_desc update_block_bitmap
taken-lt d bitmap h k f = write-lt _ _ _ (write-lt d _ bitmap h k) (encode_group_desc-AreBytes _ f)

taken-BlockTaken :
    (d : Bytes) (k : ℕ) (bitmap : List ℕ)
    → IsCounted d
    → Claimed (load_block_bitmap d) k bitmap
    → BlockTaken d k (taken d bitmap)
taken-BlockTaken d k bitmap c claimed =
    let size : length bitmap ≡ block_size = claimed.same_length ∙ length-load_block_bitmap d in
    let fits = one_less-Fits (load_group_desc-Fits d c.bytes) in
    let g = one_less (load_group_desc d) in
    let (b1, b2, b3, b4, b5) = update_block_bitmap_lem d bitmap size in
    let (g1, g2, g3, g4, g5) = update_group_desc_lem (update_block_bitmap bitmap d) g fits in
    record {
      in_range = omega (arith, claimed.inside, length-load_block_bitmap d);
      claimed = rw (g2, b1) claimed;
      counted = record {
        bytes = taken-lt d bitmap c.bytes claimed.bytes fits;
        blocks = rw (g1, g2, b1) (omega (arith, claimed.one_less, c.blocks));
        inodes = rw (g1, g3, b3) c.inodes;
      };
      group = g1;
      same_inode_bitmap = g3 ∙ b3;
      same_inodes = λ e. g4 _ (inode_of e) ∙ b4 _ (inode_of e);
      same_blocks = λ b. g5 b ∙ b5 b;
    }

-- On an image whose group descriptor counts its bitmaps, `new_block` is defined. With no free block
-- it returns `DATA_BLOCK_COUNT` and changes nothing; otherwise it returns the first free block, marks
-- it, and counts one less.
pub new_block_lem :
    (fs : FileSystem)
    → IsCounted fs.disk
    → (((load_group_desc fs.disk).bg_free_blocks_count ≡ 0)
        × (new_block fs ≡ ok data_block_count fs))
      ⊎ ((k : ℕ) × (d : Bytes) × (new_block fs ≡ ok k (record fs { disk = d }))
          × (0 < (load_group_desc fs.disk).bg_free_blocks_count)
          × BlockTaken fs.disk k d)
unfolding new_block take_block
new_block_lem fs c = elim (Bool-cases ((load_group_desc fs.disk).bg_free_blocks_count == 0)) [
  | inl e ↦ inl (ground arith, rw e)
  | inr e ↦
      let positive : 0 < (load_group_desc fs.disk).bg_free_blocks_count = ground arith in
      let bytes = load_block_bitmap-AreBytes fs.disk c.bytes in
      let (k, bitmap, eq, claimed) = claim_bit_lem _ bytes (omega (arith, c.blocks)) in
      inr
        (k, taken fs.disk bitmap, rw (e, eq), positive, taken-BlockTaken fs.disk k bitmap c claimed)
]

-- The block is filled with zeros and its bit is clear. Nothing else on the image has changed, the
-- counter of free blocks included.
pub record BlockReset (d : Bytes) (k : ℕ) (d' : Bytes) : Type 0 where
  pub cleared : Cleared (load_block_bitmap d) k (load_block_bitmap d')
  pub blocks :
      (b : ℕ)
      → load_block_entry b d' ≡ (if b == k then zero_bytes block_size else load_block_entry b d)
  pub same_group : load_group_desc d' ≡ load_group_desc d
  pub same_inode_bitmap : load_inode_bitmap d' ≡ load_inode_bitmap d
  pub same_inodes :
      (e : ℕ) → load_inode_table (e % inode_count + 1) d' ≡ load_inode_table (e % inode_count + 1) d

-- `reset_block_entry` of a block number in range is defined: it zeroes the block and frees its bit,
-- and changes nothing else on the image. In particular the counter of free blocks stays, which the
-- callers raise.
pub reset_block_entry_lem :
    (fs : FileSystem) (k : ℕ)
    → ((p : ℕ) → fs.disk p < 256)
    → k < data_block_count
    → (d : Bytes) × (reset_block_entry k fs ≡ ok tt (record fs { disk = d }))
      × BlockReset fs.disk k d
unfolding reset_block_entry store_bitmap
reset_block_entry_lem fs k h lt =
    let bytes = zero_bytes block_size in
    let full = length-zero_bytes block_size in
    let d = update_block_entry bytes k fs.disk in
    let size = length-load_block_bitmap fs.disk in
    let (_, e3, e4, e5, _) = load-update_block_entry fs.disk bytes k k 1 full (omega arith) in
    let (bitmap, eq, cleared) =
      clear_bit_lem (load_block_bitmap fs.disk) k (load_block_bitmap-AreBytes fs.disk h)
        (omega (arith, size)) in
    let (b1, b2, b3, b4, b5) = update_block_bitmap_lem d bitmap (cleared.same_length ∙ size) in
    (
      update_block_bitmap bitmap d,
      unfold update_block_entry in rw (e4, eq),
      record {
        cleared = rw b1 cleared;
        blocks = λ b. b5 b ∙ (load-update_block_entry fs.disk bytes k b 1 full (omega arith)).0;
        same_group = b2 ∙ e3;
        same_inode_bitmap = b3 ∙ e5;
        same_inodes = λ e.
            b4 _ (inode_of e) ∙ (load-update_block_entry fs.disk bytes k k _ full (inode_of e)).4;
      },
    )
