-- ===== src/Fs/Walk/Examples.antt =====
-- The walks of lab3/3.c at a concrete image.
use xjtu_oslab.Base.{ℕ, ◌≡◌, refl, arith, List, [], ◌∷◌, ◌==◌, if◌then◌else◌, take}
use mathlib.Core.Path.{subst}
use xjtu_oslab.Fs.Bytes.{Bytes, read, front, behind, from_le, from_words}
use xjtu_oslab.Fs.Disk.{
  load_block_entry, block_offset, load_inode_table, decode_inode, inode_offset,
}
use xjtu_oslab.Fs.State.{FileSystem, ft_dir, ok}
use xjtu_oslab.Fs.Directory.Search.{find_file, IsDirectory}
use xjtu_oslab.Fs.Directory.Examples.{image, system, file_a, file_b, image-IsDirectory}
use xjtu_oslab.Fs.Walk.{searching, handle_search_inode}
use xjtu_oslab.Fs.Walk.Lookup.{Directories, no_block, block, handle_search_inode_lem}

-- Inode 1 has one block, which is block 0.
abbrev image1 : Bytes
image1 p = if p == 1538 then 1 else image p

abbrev system1 : FileSystem
system1 = record system { disk = image1 }

same_block : load_block_entry 0 image ≡ load_block_entry 0 image1
unfolding load_block_entry block_offset read
same_block = refl

one_block : (load_inode_table 1 image1).i_blocks ≡ 1
unfolding load_inode_table decode_inode inode_offset read front behind from_le
one_block = refl

image1-Directories :
    Directories image1
      (take (load_inode_table 1 image1).i_blocks (load_inode_table 1 image1).i_block)
      (file_a ∷ file_b ∷ [])
unfolding load_inode_table decode_inode inode_offset read front behind from_le from_words
image1-Directories =
    block
      (subst (λ (b : List ℕ). IsDirectory b 0 (file_a ∷ file_b ∷ [])) same_block image-IsDirectory)
      no_block

handle_search_inode_lem_example :
    handle_search_inode (98 ∷ []) ft_dir 1 searching system1
    ≡ ok (find_file (98 ∷ []) 2 (file_a ∷ file_b ∷ [])) system1
handle_search_inode_lem_example =
    handle_search_inode_lem system1 (98 ∷ []) ft_dir 1 (ground arith) (omega (arith, one_block))
      image1-Directories
