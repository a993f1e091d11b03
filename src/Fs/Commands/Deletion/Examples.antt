-- ===== src/Fs/Commands/Deletion/Examples.antt =====
-- `delete` of lab3/3.c at a concrete image.
use xjtu_oslab.Base.{
  ℕ, ◌-◌, ◌%◌, ◌^◌, ◌<◌, ◌≡◌, ◌⊎◌, refl, arith, List, [], ◌∷◌, ◌++◌, ◌==◌, ltb, get_or, true, false,
  if◌then◌else◌,
}
use xjtu_oslab.Fs.Bytes.{Bytes, read, front, behind, from_le, from_words}
use xjtu_oslab.Fs.Disk.{
  load_block_entry, block_offset, load_inode_table, decode_inode, inode_offset,
}
use xjtu_oslab.Fs.State.{FileSystem, ok}
use xjtu_oslab.Fs.Directory.{is_open}
use xjtu_oslab.Fs.Directory.Search.{File, find_file}
use xjtu_oslab.Fs.Directory.Entries.{Stored, Free, end, next}
use xjtu_oslab.Fs.Directory.Examples.{system, file_a}
use xjtu_oslab.Fs.Commands.{done, not_found, already_open, delete}
use xjtu_oslab.Fs.Commands.Creation.{Listing}
use xjtu_oslab.Fs.Commands.Deletion.Removal.{Deleted}
use xjtu_oslab.Fs.Commands.Deletion.Outcome.{delete_lem}

-- Data block 0, the one block of inode 1, holds `.` and the regular file `a` with inode 2, which has no
-- blocks. Both inodes are in use.
abbrev listing : List ℕ
listing = 1 ∷ 0 ∷ 8 ∷ 0 ∷ 1 ∷ 2 ∷ 46 ∷ 0 ∷ 2 ∷ 0 ∷ 8 ∷ 0 ∷ 1 ∷ 1 ∷ 97 ∷ 0 ∷ []

abbrev listed_image : Bytes
listed_image p =
    if p == 1024
    then 192
    else if p == 1538
    then 1
    else if ltb p 263680
    then 0
    else get_or listing (p - 263680) 0

abbrev listed_system : FileSystem
listed_system = record system { disk = listed_image; clock = λ t. t % 2 ^ 31 }

abbrev dot_file : File
dot_file = record { file_name = 46 ∷ []; kind = 2; number = 1 }

abbrev block : List ℕ
block = load_block_entry 0 listed_image

block_dot : Stored block 0 dot_file 8
unfolding load_block_entry block_offset read front behind from_le
block_dot = record {
  inside = omega arith;
  numbered = refl;
  in_use = omega arith;
  measured = refl;
  kinds = refl;
  named = refl;
  text = ground arith;
  short = omega arith;
  fits = omega arith;
}

block_a : Stored block 8 file_a 8
unfolding load_block_entry block_offset read front behind from_le
block_a = record {
  inside = omega arith;
  numbered = refl;
  in_use = omega arith;
  measured = refl;
  kinds = refl;
  named = refl;
  text = ground arith;
  short = omega arith;
  fits = omega arith;
}

block-Free : Free block 16
unfolding load_block_entry block_offset read front behind from_le
block-Free = record { inside = omega arith; unused = refl }

listed_image-Listing : Listing listed_image 1 0 (dot_file ∷ file_a ∷ []) 16
unfolding load_inode_table decode_inode inode_offset read front behind from_le from_words
listed_image-Listing = record {
  fits = record {
    i_mode = omega arith;
    i_blocks = omega arith;
    i_size = omega arith;
    i_atime = omega arith;
    i_ctime = omega arith;
    i_mtime = omega arith;
    i_dtime = omega arith;
    i_block = (refl, ground arith);
    i_pad = refl;
  };
  one_block = refl;
  block_at = refl;
  holds = next block_dot (next block_a (end block-Free));
}

listed_image-lt : (p : ℕ) → listed_image p < 256
listed_image-lt p = ground arith

no_blocks : (load_inode_table 2 listed_image).i_blocks ≡ 0
unfolding load_inode_table decode_inode inode_offset read front behind from_le
no_blocks = refl

found_a : find_file (97 ∷ []) 1 (file_a ∷ []) ≡ 2
unfolding find_file
found_a = refl

delete_lem_example :
    ((find_file (97 ∷ []) 1 (file_a ∷ []) ≡ 0)
      × (delete ((97 ∷ []) ++ 10 ∷ []) listed_system ≡ ok not_found listed_system))
    ⊎ (((0 < find_file (97 ∷ []) 1 (file_a ∷ []))
          × (is_open (find_file (97 ∷ []) 1 (file_a ∷ [])) listed_system.fopen_table ≡ true)
          × (delete ((97 ∷ []) ++ 10 ∷ []) listed_system ≡ ok already_open listed_system))
        ⊎ ((0 < find_file (97 ∷ []) 1 (file_a ∷ []))
            × (is_open (find_file (97 ∷ []) 1 (file_a ∷ [])) listed_system.fopen_table ≡ false)
            × (fs' : FileSystem) × (delete ((97 ∷ []) ++ 10 ∷ []) listed_system ≡ ok done fs')
            × Deleted listed_system 0
                (find_file (97 ∷ []) 1 (file_a ∷ []) - 1)
                (97 ∷ [])
                dot_file
                (file_a ∷ [])
                16
                fs'))
delete_lem_example =
    delete_lem listed_system 0 (97 ∷ []) (λ t. omega arith) listed_image-lt
      (omega arith, omega arith) (ground arith) (omega arith) listed_image-Listing
      λ _. rw found_a ((omega arith, omega arith), omega arith, no_blocks)
