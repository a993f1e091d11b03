-- ===== src/Fs/Directory/ListExamples.antt =====
-- The lists of files in directory blocks of lab3/3.c at a concrete block.
use xjtu_oslab.Base.{length, ℕ, ◌≤◌, ◌≡◌, refl, arith, List, [], ◌∷◌, some}
use xjtu_oslab.Fs.Bytes.{read, from_le, front, behind}
use xjtu_oslab.Fs.Disk.{block_offset, load_block_entry, update_block_entry}
use xjtu_oslab.Fs.State.{FileSystem, ft_reg_file, ok}
use xjtu_oslab.Fs.Directory.{
  DirEntry, delete_dir_entry, append_dir_entry, init_dir_entry_with_inode,
}
use xjtu_oslab.Fs.Directory.Search.{File, find_file}
use xjtu_oslab.Fs.Directory.Entries.{Stored, Free, Holds, end, next}
use xjtu_oslab.Fs.Directory.Insert.{Inserted, append_dir_entry_lem}
use xjtu_oslab.Fs.Directory.RoundTrip.{append-delete_dir_entry}
use xjtu_oslab.Fs.Directory.Examples.{image, system, file_a, file_b}

abbrev block : List ℕ
block = load_block_entry 0 image

block_a : Stored block 0 file_a 8
unfolding load_block_entry block_offset read front behind from_le
block_a = record {
  inside = omega arith;
  numbered = refl;
  in_use = omega arith;
  measured = refl;
  kinds = refl;
  named = refl;
  text = ground arith;
  short = omega arith;
  fits = omega arith;
}

block_b : Stored block 8 file_b 8
unfolding load_block_entry block_offset read front behind from_le
block_b = record {
  inside = omega arith;
  numbered = refl;
  in_use = omega arith;
  measured = refl;
  kinds = refl;
  named = refl;
  text = ground arith;
  short = omega arith;
  fits = omega arith;
}

block-Free : Free block 16
unfolding load_block_entry block_offset read front behind from_le
block-Free = record { inside = omega arith; unused = refl }

pub block-Holds : Holds block 0 (file_a ∷ file_b ∷ []) 16
block-Holds = next block_a (next block_b (end block-Free))

abbrev file_xy : File
file_xy = record { file_name = 120 ∷ 121 ∷ []; kind = 1; number = 9 }

append_dir_entry_lem_example :
    (e : DirEntry) × (e' : DirEntry) × (block' : List ℕ) × (files' : List File) × (z' : ℕ)
    × (init_dir_entry_with_inode (120 ∷ 121 ∷ []) ft_reg_file 9 ≡ some e)
    × (append_dir_entry e 0 system
        ≡ ok (1, e') (record system { disk = update_block_entry block' 0 image }))
    × Inserted file_xy (file_a ∷ file_b ∷ []) files'
    × Holds block' 0 files' z'
    × (z' ≤ 25)
    × (length block' ≡ 512)
append_dir_entry_lem_example =
    append_dir_entry_lem system 0 ft_reg_file file_xy refl (ground arith) (omega arith)
      (omega arith) (omega arith) block-Holds

none_found : find_file (120 ∷ 121 ∷ []) 1 (file_a ∷ file_b ∷ []) ≡ 0
unfolding find_file
none_found = refl

none_behind : find_file (120 ∷ 121 ∷ []) 1 (file_b ∷ []) ≡ 0
unfolding find_file
none_behind = refl

append-delete_dir_entry_example :
    (e : DirEntry) × (e' : DirEntry) × (fs' : FileSystem) × (block' : List ℕ) × (z' : ℕ)
    × (init_dir_entry_with_inode (120 ∷ 121 ∷ []) ft_reg_file 9 ≡ some e)
    × (append_dir_entry e 0 system ≡ ok (1, e') fs')
    × (delete_dir_entry (120 ∷ 121 ∷ []) ft_reg_file 0 fs'
        ≡ ok 1 (record fs' { disk = update_block_entry block' 0 fs'.disk }))
    × Holds block' 0 (file_a ∷ file_b ∷ []) z'
append-delete_dir_entry_example =
    append-delete_dir_entry system 0 ft_reg_file file_xy refl (ground arith) (omega arith)
      (omega arith) (omega arith) block-Holds none_behind
