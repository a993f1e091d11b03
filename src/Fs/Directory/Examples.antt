-- ===== src/Fs/Directory/Examples.antt =====
-- Directory blocks of lab3/3.c at concrete inputs.
use xjtu_oslab.Base.{
  ℕ, ◌-◌, ◌≡◌, refl, arith, List, [], ◌∷◌, Option, none, some, ltb, if◌then◌else◌, get_or,
  replicate,
}
use xjtu_oslab.Fs.Bytes.{Bytes, read, to_le, from_le, front, behind}
use xjtu_oslab.Fs.Disk.{block_offset, load_block_entry}
use xjtu_oslab.Fs.State.{FileSystem, ft_reg_file, ft_dir}
use xjtu_oslab.Fs.Directory.{
  DirEntry, decode_dir_entry, encode_dir_entry, entry_at, equal_string, is_entry, search_entry,
  search_from, put, word_at, unlink_entry, delete_entry, delete_from, string_of, split_entry,
  Appended, appended_as, append_from, init_dir_entry_with_inode,
}
use xjtu_oslab.Fs.Directory.Stored.{DirEntryFits}
use xjtu_oslab.Fs.Directory.Search.{File, IsDirectory, last, entry}

-- Data block 0 holds the regular file `a` with inode 2 and the directory `b` with inode 3.
abbrev listing : List ℕ
listing = 2 ∷ 0 ∷ 8 ∷ 0 ∷ 1 ∷ 1 ∷ 97 ∷ 0 ∷ 3 ∷ 0 ∷ 8 ∷ 0 ∷ 1 ∷ 2 ∷ 98 ∷ 0 ∷ []

abbrev pub image : Bytes
image p = if ltb p 263680 then 0 else get_or listing (p - 263680) 0

abbrev pub system : FileSystem
system = record {
  disk = image;
  fopen_table = replicate 16 0;
  last_alloc_inode = 1;
  last_alloc_block = 1;
  current_dir = 1;
  current_path = [];
  clock = λ n. n;
  asked = 0;
  printed = [];
}

abbrev pub file_a : File
file_a = record { file_name = 97 ∷ []; kind = 1; number = 2 }

abbrev pub file_b : File
file_b = record { file_name = 98 ∷ []; kind = 2; number = 3 }

abbrev entry_a : DirEntry
entry_a = record {
  inode = 2;
  rec_len = 8;
  name_len = 1;
  file_type = 1;
  name = 97 ∷ 0 ∷ 3 ∷ 0 ∷ 8 ∷ 0 ∷ 1 ∷ 2 ∷ 98 ∷ replicate 246 0;
}

abbrev entry_b : DirEntry
entry_b = record {
  inode = 3;
  rec_len = 8;
  name_len = 1;
  file_type = 2;
  name = 98 ∷ replicate 254 0;
}

abbrev entry_free : DirEntry
entry_free = record { inode = 0; rec_len = 0; name_len = 0; file_type = 0; name = replicate 255 0 }

pub image-IsDirectory : IsDirectory (load_block_entry 0 image) 0 (file_a ∷ file_b ∷ [])
unfolding load_block_entry block_offset read entry_at decode_dir_entry front behind from_le
image-IsDirectory =
    entry {e = entry_a} refl
      (record {
        behind_name = 3 ∷ 0 ∷ 8 ∷ 0 ∷ 1 ∷ 2 ∷ 98 ∷ replicate 246 0;
        named = refl;
        text = ground arith;
        typed = refl;
        numbered = refl;
        in_use = omega arith;
        forward = omega arith;
      })
      (entry {e = entry_b} refl
        (record {
          behind_name = replicate 253 0;
          named = refl;
          text = ground arith;
          typed = refl;
          numbered = refl;
          in_use = omega arith;
          forward = omega arith;
        })
        (last {e = entry_free} refl refl))

-- What the search says of a block, if there is one.
abbrev searched : List ℕ → Option Appended → Option ℕ
searched name none = none
searched name (some none) = none
searched name (some (some (block, _))) = search_from 251 block name ft_reg_file 0

abbrev added : Option DirEntry → List ℕ → Option Appended
added none block = none
added (some e) block = append_from 251 block e 0

-- Appended to an empty block, a file is found again.
append_found :
    searched
      (120 ∷ 121 ∷ [])
      (added (init_dir_entry_with_inode (120 ∷ 121 ∷ []) ft_reg_file 9) (replicate 512 0))
    ≡ some 9
unfolding init_dir_entry_with_inode append_from appended_as split_entry string_of put
    encode_dir_entry entry_at decode_dir_entry front behind from_le to_le search_from search_entry
    is_entry equal_string
append_found = refl

abbrev deleted : Option (Option (List ℕ)) → Option ℕ
deleted none = none
deleted (some none) = none
deleted (some (some block)) = search_from 251 block (98 ∷ []) ft_dir 0

-- Deleted, it is not. The first entry of a block cannot be deleted.
delete_second : deleted (delete_from 251 (load_block_entry 0 image) (98 ∷ []) ft_dir 0) ≡ some 0
unfolding load_block_entry block_offset read delete_from delete_entry unlink_entry put word_at
    entry_at decode_dir_entry front behind from_le to_le search_from search_entry is_entry
    equal_string
delete_second = refl

delete_first : delete_from 251 (load_block_entry 0 image) (97 ∷ []) ft_reg_file 0 ≡ some none
unfolding load_block_entry block_offset read delete_from delete_entry unlink_entry put word_at
    entry_at decode_dir_entry front behind from_le to_le is_entry equal_string
delete_first = refl

entry_b-DirEntryFits : DirEntryFits entry_b
entry_b-DirEntryFits = record { inode = omega arith; rec_len = omega arith; name = refl }
