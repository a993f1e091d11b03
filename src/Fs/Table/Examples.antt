-- ===== src/Fs/Table/Examples.antt =====
-- Sessions and writing of lab3/3.c at concrete inputs.
use xjtu_oslab.Base.{get_or, ◌<◌}
use xjtu_oslab.Fs.Bytes.{from_words}
use xjtu_oslab.Fs.State.{undefined}
use xjtu_oslab.Fs.Files.{handle_write_inode}
use xjtu_oslab.Fs.Files.Overflow.{handle_write_inode-undefined}
use xjtu_oslab.Fs.Setup.{clear_sectors, disk_size}
use xjtu_oslab.Fs.Setup.Sectors.{clear_sectors_lem}
use xjtu_oslab.Base.{
  ℕ, ◌≡◌, refl, arith, List, [], ◌∷◌, none, some, replicate, ◌==◌, if◌then◌else◌, All, ◌<◌,
}
use xjtu_oslab.Fs.Bytes.{read, front, behind, from_le}
use xjtu_oslab.Fs.Disk.{
  load_block_entry, block_offset, load_inode_table, decode_inode, inode_offset,
}
use xjtu_oslab.Fs.State.{FileSystem}
use xjtu_oslab.Fs.State.Keeps.{Ensures}
use xjtu_oslab.Fs.Directory.{string_of}
use xjtu_oslab.Fs.Directory.Examples.{system}
use xjtu_oslab.Fs.Files.{input}
use xjtu_oslab.Fs.Shell.{main}
use xjtu_oslab.Fs.Table.Slots.{IsTable}
use xjtu_oslab.Fs.Table.Sessions.{main-IsTable}

-- For a new file system the password `pw`, which is typed again for the login; `create a`, `open a` and
-- `quit`.
abbrev session : List ℕ
session =
    112 ∷ 119 ∷ 10 ∷ 112 ∷ 119 ∷ 10 ∷ 99 ∷ 114 ∷ 101 ∷ 97 ∷ 116 ∷ 101 ∷ 32 ∷ 97 ∷ 10 ∷ 111 ∷ 112
    ∷ 101 ∷ 110 ∷ 32 ∷ 97 ∷ 10 ∷ 113 ∷ 117 ∷ 105 ∷ 116 ∷ 10 ∷ []

main-IsTable_example :
    Ensures (λ fs. IsTable fs.fopen_table) (main none (0 ∷ 0 ∷ 0 ∷ []) session system)
main-IsTable_example = main-IsTable system none (0 ∷ 0 ∷ 0 ∷ []) session

-- Inode 1 has block 0, which is empty.
abbrev empty_file : FileSystem
empty_file = record system { disk = λ p. if p == 1538 then 1 else 0 }

abbrev long_text : List ℕ
long_text = replicate 699 97

long_text-input : input (replicate 700 97) ≡ some long_text
unfolding input string_of
long_text-input = refl

one_block : (load_inode_table 1 empty_file.disk).i_blocks ≡ 1
unfolding load_inode_table decode_inode inode_offset read front behind from_le
one_block = refl

first_block-empty :
    load_block_entry (get_or (load_inode_table 1 empty_file.disk).i_block 0 0) empty_file.disk
    ≡ 0 ∷ replicate 511 0
unfolding load_block_entry block_offset load_inode_table decode_inode inode_offset read front behind
    from_le from_words
first_block-empty = refl

long_text-All : All (λ b. 0 < b) long_text
long_text-All = ground arith

handle_write_inode-undefined_example :
    handle_write_inode 1 (replicate 700 97) empty_file ≡ undefined
handle_write_inode-undefined_example =
    handle_write_inode-undefined empty_file 1 (replicate 700 97) long_text [] (replicate 511 0)
      long_text-input long_text-All tt (omega (arith, one_block)) first_block-empty (omega arith)
      (omega arith)

clear_sectors_lem_example : clear_sectors disk_size (λ p. 7) 300000 ≡ 0
clear_sectors_lem_example = clear_sectors_lem disk_size (λ p. 7) 300000
