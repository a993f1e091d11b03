-- ===== src/Fs/Commands/Creation/Examples.antt =====
-- `create` of lab3/3.c at a concrete image.
use xjtu_oslab.Base.{
  ℕ, ◌%◌, ◌^◌, ◌<◌, ◌≡◌, ◌⊎◌, refl, arith, List, [], ◌∷◌, ◌++◌, ◌==◌, if◌then◌else◌,
}
use mathlib.Core.Path.{subst}
use xjtu_oslab.Fs.Bytes.{Bytes, read, front, behind, from_le, from_words}
use xjtu_oslab.Fs.Bitmap.Claim.{bit_at}
use xjtu_oslab.Fs.Disk.{
  load_block_entry, block_offset, load_inode_table, decode_inode, inode_offset, load_group_desc,
  decode_group_desc, load_block_bitmap, load_inode_bitmap,
}
use xjtu_oslab.Fs.State.{FileSystem, ok, undefined}
use xjtu_oslab.Fs.Directory.Search.{find_file}
use xjtu_oslab.Fs.Directory.Entries.{Holds}
use xjtu_oslab.Fs.Directory.Examples.{image, system, file_a, file_b}
use xjtu_oslab.Fs.Directory.ListExamples.{block-Holds}
use xjtu_oslab.Fs.Space.Block.{IsCounted}
use xjtu_oslab.Fs.Commands.{done, file_exists, create}
use xjtu_oslab.Fs.Commands.Creation.{Listing}
use xjtu_oslab.Fs.Commands.Creation.Outcome.{Created, create_lem}

-- Inodes 1 to 3 are in use, and block 0, which is the one block of inode 1.
abbrev used_image : Bytes
used_image p =
    if p == 22
    then 255
    else if p == 23
    then 15
    else if p == 24
    then 253
    else if p == 25
    then 15
    else if p == 512
    then 128
    else if p == 1024
    then 224
    else if p == 1538
    then 1
    else image p

abbrev used_system : FileSystem
used_system = record system { disk = used_image; clock = λ t. t % 2 ^ 31 }

same_block : load_block_entry 0 image ≡ load_block_entry 0 used_image
unfolding load_block_entry block_offset read
same_block = refl

used_image-Listing : Listing used_image 1 0 (file_a ∷ file_b ∷ []) 16
unfolding load_inode_table decode_inode inode_offset read front behind from_le from_words
used_image-Listing = record {
  fits = record {
    i_mode = omega arith;
    i_blocks = omega arith;
    i_size = omega arith;
    i_atime = omega arith;
    i_ctime = omega arith;
    i_mtime = omega arith;
    i_dtime = omega arith;
    i_block = (refl, ground arith);
    i_pad = refl;
  };
  one_block = refl;
  block_at = refl;
  holds = subst (λ (b : List ℕ). Holds b 0 (file_a ∷ file_b ∷ []) 16) same_block block-Holds;
}

used_image-lt : (p : ℕ) → used_image p < 256
used_image-lt p = ground arith

used_image-IsCounted : IsCounted used_image
unfolding load_group_desc decode_group_desc read front behind from_le load_block_bitmap
    load_inode_bitmap
used_image-IsCounted = record { bytes = used_image-lt; blocks = refl; inodes = refl }

root_in_use : bit_at (load_inode_bitmap used_image) 0 ≡ 1
unfolding load_inode_bitmap read
root_in_use = refl

-- The name `xy`.
create_lem_example :
    ((0 < find_file (120 ∷ 121 ∷ []) 1 (file_a ∷ file_b ∷ []))
      × (create ((120 ∷ 121 ∷ []) ++ 10 ∷ []) used_system ≡ ok file_exists used_system))
    ⊎ (((find_file (120 ∷ 121 ∷ []) 1 (file_a ∷ file_b ∷ []) ≡ 0)
          × ((load_group_desc used_image).bg_free_inodes_count ≡ 0)
          × (create ((120 ∷ 121 ∷ []) ++ 10 ∷ []) used_system ≡ undefined))
        ⊎ ((find_file (120 ∷ 121 ∷ []) 1 (file_a ∷ file_b ∷ []) ≡ 0)
            × (0 < (load_group_desc used_image).bg_free_inodes_count)
            × (fs' : FileSystem) × (create ((120 ∷ 121 ∷ []) ++ 10 ∷ []) used_system ≡ ok done fs')
            × Created used_system 0 (120 ∷ 121 ∷ []) (file_a ∷ file_b ∷ []) fs'))
create_lem_example =
    create_lem used_system 0 (120 ∷ 121 ∷ []) (λ t. omega arith) (omega arith, omega arith)
      (ground arith) (omega arith) used_image-Listing used_image-IsCounted root_in_use
