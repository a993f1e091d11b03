-- ===== src/Fs/Examples.antt =====
-- The image of lab3/3.c at concrete inputs.
use xjtu_oslab.Base.{
  ◌+◌, ◌%◌, ◌^◌, ℕ, ◌<◌, ◌≡◌, ◌⊎◌, refl, arith, List, [], ◌∷◌, some, ◌==◌, if◌then◌else◌, replicate,
}
use xjtu_oslab.Fs.Bytes.{Bytes, read, from_le, front, behind}
use xjtu_oslab.Fs.Bytes.Range.{AreBytes}
use xjtu_oslab.Fs.Disk.{
  data_block_count, GroupDesc, Inode, decode_group_desc, load_group_desc, load_block_bitmap,
  load_inode_bitmap, load_inode_table, update_inode_table, load_block_entry,
}
use xjtu_oslab.Fs.Disk.RoundTrip.{InodeFits, GroupDescFits}
use xjtu_oslab.Fs.Disk.Frame.{load-update_inode_table}
use xjtu_oslab.Fs.Disk.Range.{load_group_desc-Fits}
use xjtu_oslab.Fs.Bitmap.{first_byte, first_bit, mark, claim_bit, clear_bit}
use xjtu_oslab.Fs.Bitmap.Claim.{zeros}
use xjtu_oslab.Fs.State.{FileSystem, ok}
use xjtu_oslab.Fs.Space.Entry.{fresh, InodeTaken, new_inode_lem}
use xjtu_oslab.Fs.Space.{new_inode, new_block}
use xjtu_oslab.Fs.Space.Block.{IsCounted, BlockTaken, new_block_lem}

-- An image with empty bitmaps, and 4096 free blocks and inodes in its group descriptor.
abbrev empty_image : Bytes
empty_image p = if p == 23 then 16 else if p == 25 then 16 else 0

empty_image-lt : (p : ℕ) → empty_image p < 256
empty_image-lt p = ground arith

empty_image-blocks : (load_group_desc empty_image).bg_free_blocks_count ≡ 4096
unfolding load_group_desc decode_group_desc read front behind from_le
empty_image-blocks = refl

empty_image-zeros : zeros (load_block_bitmap empty_image) ≡ 4096
unfolding load_block_bitmap read
empty_image-zeros = refl

empty_image-IsCounted : IsCounted empty_image
unfolding load_group_desc decode_group_desc read front behind from_le load_block_bitmap
    load_inode_bitmap
empty_image-IsCounted = record { bytes = empty_image-lt; blocks = refl; inodes = refl }

abbrev system : FileSystem
system = record {
  disk = empty_image;
  fopen_table = replicate 16 0;
  last_alloc_inode = 1;
  last_alloc_block = 1;
  current_dir = 1;
  current_path = [];
  clock = λ t. t % 2 ^ 31;
  asked = 0;
  printed = [];
}

new_block_lem_example :
    (((load_group_desc empty_image).bg_free_blocks_count ≡ 0)
      × (new_block system ≡ ok data_block_count system))
    ⊎ ((k : ℕ) × (d : Bytes) × (new_block system ≡ ok k (record system { disk = d }))
        × (0 < (load_group_desc empty_image).bg_free_blocks_count)
        × BlockTaken empty_image k d)
new_block_lem_example = new_block_lem system empty_image-IsCounted

-- The first eleven bits are set.
abbrev bitmap : List ℕ
bitmap = 255 ∷ 0b11100000 ∷ 0 ∷ []

bitmap-AreBytes : AreBytes bitmap
bitmap-AreBytes = ground arith

claimed_eleven : claim_bit bitmap ≡ some (11, 255 ∷ 0b11110000 ∷ 0 ∷ [])
unfolding claim_bit first_byte first_bit mark
claimed_eleven = refl

cleared_nine : clear_bit 9 bitmap ≡ some (255 ∷ 0b10100000 ∷ 0 ∷ [])
unfolding clear_bit
cleared_nine = refl

abbrev inode : Inode
inode = record {
  i_mode = 0b110;
  i_blocks = 1;
  i_size = 300;
  i_atime = 1700000000;
  i_ctime = 1700000000;
  i_mtime = 1700000001;
  i_dtime = 0;
  i_block = 7 ∷ replicate 7 0;
  i_pad = replicate 8 0xff;
}

inode-InodeFits : InodeFits inode
inode-InodeFits = record {
  i_mode = omega arith;
  i_blocks = omega arith;
  i_size = omega arith;
  i_atime = omega arith;
  i_ctime = omega arith;
  i_mtime = omega arith;
  i_dtime = omega arith;
  i_block = (refl, ground arith);
  i_pad = refl;
}

load-update_inode_table_example :
    (load_inode_table 2 (update_inode_table inode 2 empty_image) ≡ inode)
    × (load_group_desc (update_inode_table inode 2 empty_image) ≡ load_group_desc empty_image)
    × (load_block_bitmap (update_inode_table inode 2 empty_image) ≡ load_block_bitmap empty_image)
    × (load_inode_bitmap (update_inode_table inode 2 empty_image) ≡ load_inode_bitmap empty_image)
    × (load_block_entry 7 (update_inode_table inode 2 empty_image) ≡ load_block_entry 7 empty_image)
load-update_inode_table_example =
    load-update_inode_table empty_image inode 2 2 7 inode-InodeFits (omega arith, omega arith)
      (omega arith, omega arith)

abbrev block : List ℕ
block = replicate 512 65

abbrev group : GroupDesc
group = record (load_group_desc empty_image) { bg_free_blocks_count = 4000 }

group-Fits : GroupDescFits group
group-Fits =
    let f = load_group_desc-Fits empty_image empty_image-lt in
    record {
      bg_volume_name = f.bg_volume_name;
      bg_block_bitmap = f.bg_block_bitmap;
      bg_inode_bitmap = f.bg_inode_bitmap;
      bg_inode_table = f.bg_inode_table;
      bg_free_blocks_count = omega arith;
      bg_free_inodes_count = f.bg_free_inodes_count;
      bg_used_dirs_count = f.bg_used_dirs_count;
      password = f.password;
      bg_pad = f.bg_pad;
      texts = f.texts;
    }

new_inode_lem_example :
    (((load_group_desc empty_image).bg_free_inodes_count ≡ 0) × (new_inode system ≡ ok 0 system))
    ⊎ ((k : ℕ) × (d : Bytes) × (new_inode system
          ≡ ok (k + 1) (record system { disk = d; asked = 3 }))
        × (0 < (load_group_desc empty_image).bg_free_inodes_count)
        × InodeTaken empty_image k (fresh (λ t. t % 2 ^ 31) 0) d)
new_inode_lem_example = new_inode_lem system empty_image-IsCounted (λ t. omega arith)
