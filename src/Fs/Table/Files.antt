-- ===== src/Fs/Table/Files.antt =====
-- The new entries and the writing of files of lab3/3.c leave the globals besides the image alone.
use xjtu_oslab.Fs.State.Keeps.{Keeps-option}
use xjtu_oslab.Base.{
  ℕ, zero, suc, ◌+◌, ◌-◌, ◌*◌, ◌^◌, ◌%◌, ◌==◌, ltb, leb, List, [], ◌∷◌, ◌++◌, Option, none, some,
  length, get_or, set, take, drop,
}
use Prim.Native.Nat.{bit_or}
use xjtu_oslab.Fs.Bytes.{front, zero_bytes}
use xjtu_oslab.Fs.Disk.{
  block_size, data_block_count, Inode, update_inode_table, update_block_entry, load_inode_table,
  load_block_entry,
}
use xjtu_oslab.Fs.State.{
  FileSystem, FileType, file_type_code, ft_unknown, ft_reg_file, ft_dir, ft_chrdev, ft_blkdev,
  ft_fifo, ft_sock, ft_symlink,
}
use xjtu_oslab.Fs.State.Keeps.{
  Keeps, IsStable, Keeps-bind, Keeps-pure, Keeps-gets, Keeps-reads, Keeps-lift, Keeps-cond,
  Keeps-puts, Keeps-time, Keeps-stuck,
}
use xjtu_oslab.Fs.Directory.{DirEntry, put, string_of, init_dir_entry_with_inode}
use xjtu_oslab.Fs.Create.{
  append_index, init_dir_entry, extension, is_executable, dot, dotdot, fill_directory,
  count_directory, finish_file, finish_entry, new_dir_entry, with_block, first_block, link_block,
  index_block, append_blocks, handle_append_directory, same_name,
}
use xjtu_oslab.Fs.Space.{new_block, new_inode}
use xjtu_oslab.Fs.Files.{
  write_index, input, try_write, write_blocks, free_buffer, handle_write_inode,
}
use xjtu_oslab.Fs.Table.Pointers.{append_indirect-Keeps, write_indirect-Keeps}
use xjtu_oslab.Fs.Table.Blocks.{new_block-Keeps, new_inode-Keeps, append_dir_entry-Keeps}

module _ {P : FileSystem → Type 0} (stable : IsStable P) where
  init_dir_entry-Keeps : (name : List ℕ) (type : FileType) → Keeps P (init_dir_entry name type)
  unfolding init_dir_entry
  init_dir_entry-Keeps name type = Keeps-bind new_inode _ (new_inode-Keeps stable) λ inode_id.
      Keeps-cond (inode_id == 0) (Keeps-pure {A = Option DirEntry} none) (
        Keeps-bind _ _ (Keeps-lift (init_dir_entry_with_inode name type inode_id))
          λ e. Keeps-pure {A = Option DirEntry} (some e))

  fill_directory-Keeps :
      (e : DirEntry) (inode : Inode) (block : ℕ) → Keeps P (fill_directory e inode block)
  unfolding fill_directory
  fill_directory-Keeps e inode block = Keeps-cond (block == data_block_count) (Keeps-pure tt) (
      Keeps-bind _ _ (Keeps-reads (λ fs. fs.current_dir)) λ parent.
        Keeps-bind _ _ (Keeps-lift (init_dir_entry_with_inode dot ft_dir e.inode)) λ e1.
          Keeps-bind _ _ (Keeps-lift (init_dir_entry_with_inode dotdot ft_dir parent)) λ e2.
            Keeps-bind _ _ (append_dir_entry-Keeps stable e1 block) λ r1.
              Keeps-bind _ _ (append_dir_entry-Keeps stable e2 block) λ r2. Keeps-puts stable (
                update_inode_table
                  (record inode {
                    i_blocks = 1;
                    i_size = r1.1.rec_len + r2.1.rec_len;
                    i_block = set inode.i_block 0 block;
                  })
                  e.inode))

  finish_file-Keeps :
      (name : List ℕ) (e : DirEntry) (inode : Inode) → Keeps P (finish_file name e inode)
  unfolding finish_file
  finish_file-Keeps name e inode =
      Keeps-cond (is_executable (extension name))
        (Keeps-puts stable
          (update_inode_table (record inode { i_mode = (inode.i_mode + 1) % 2 ^ 16 }) e.inode))
        (Keeps-pure tt)

  finish_entry-Keeps :
      (name : List ℕ) (type : FileType) (e : DirEntry) (inode : Inode)
      → Keeps P (finish_entry name type e inode)
  unfolding finish_entry
  finish_entry-Keeps name ft_dir e inode = Keeps-bind _ _ (Keeps-puts stable count_directory) λ _.
      Keeps-bind new_block _ (new_block-Keeps stable) λ block. fill_directory-Keeps e inode block
  finish_entry-Keeps name ft_unknown e inode = finish_file-Keeps name e inode
  finish_entry-Keeps name ft_reg_file e inode = finish_file-Keeps name e inode
  finish_entry-Keeps name ft_chrdev e inode = finish_file-Keeps name e inode
  finish_entry-Keeps name ft_blkdev e inode = finish_file-Keeps name e inode
  finish_entry-Keeps name ft_fifo e inode = finish_file-Keeps name e inode
  finish_entry-Keeps name ft_sock e inode = finish_file-Keeps name e inode
  finish_entry-Keeps name ft_symlink e inode = finish_file-Keeps name e inode

  pub new_dir_entry-Keeps : (name : List ℕ) (type : FileType) → Keeps P (new_dir_entry name type)
  unfolding new_dir_entry
  new_dir_entry-Keeps name type = Keeps-bind _ _ (init_dir_entry-Keeps name type) λ r.
      Keeps-option r (Keeps-pure {A = Option DirEntry} none) λ e.
        Keeps-bind _ _ (Keeps-gets (load_inode_table e.inode)) λ inode.
          Keeps-bind _ _
            (finish_entry-Keeps name type e
              (record inode { i_mode = bit_or inode.i_mode (file_type_code type * 256) }))
            λ _. Keeps-pure {A = Option DirEntry} (some e)

  first_block-Keeps : (inode : Inode) → Keeps P (first_block inode)
  unfolding first_block
  first_block-Keeps inode =
      Keeps-cond (inode.i_blocks == 0)
        (Keeps-bind new_block _ (new_block-Keeps stable)
          λ block. Keeps-pure (with_block 0 block inode))
        (Keeps-pure inode)

  link_block-Keeps : (b : ℕ) (inode : Inode) → Keeps P (link_block b inode)
  unfolding link_block
  link_block-Keeps b inode =
      Keeps-cond (b == inode.i_blocks - 1)
        (Keeps-bind new_block _ (new_block-Keeps stable)
          λ block. Keeps-pure (with_block (b + 1) block inode))
        (Keeps-pure inode)

  index_block-Keeps : (inode : Inode) → Keeps P (index_block inode)
  unfolding index_block
  index_block-Keeps inode =
      Keeps-bind _ _ (Keeps-gets (load_block_entry (get_or inode.i_block 6 0))) λ block.
        Keeps-cond (same_name (front 8 block) (zero_bytes 8)) Keeps-stuck
          (Keeps-puts stable (update_block_entry block (get_or inode.i_block 6 0)))

  append_index-Keeps : (b : ℕ) (e : DirEntry) (inode : Inode) → Keeps P (append_index b e inode)
  unfolding append_index
  append_index-Keeps b e inode =
      Keeps-cond (b == 6) (Keeps-bind _ _ (index_block-Keeps inode) λ _. Keeps-pure e)
        (Keeps-cond (b == 7) (append_indirect-Keeps stable inode e) (Keeps-pure e))

  write_index-Keeps : (b : ℕ) (inode : Inode) → Keeps P (write_index b inode)
  unfolding write_index
  write_index-Keeps b inode =
      Keeps-cond (b == 6) (index_block-Keeps inode)
        (Keeps-cond (b == 7) (write_indirect-Keeps stable inode) (Keeps-pure tt))

  append_blocks-Keeps :
      (n b : ℕ) (e : DirEntry) (inode : Inode) → Keeps P (append_blocks n b e inode)
  unfolding append_blocks
  append_blocks-Keeps zero b e inode = Keeps-pure inode
  append_blocks-Keeps (suc n) b e inode =
      Keeps-cond (ltb b inode.i_blocks)
        (Keeps-cond (ltb b 6)
          (Keeps-bind _ _ (append_dir_entry-Keeps stable e (get_or inode.i_block b 0)) λ r.
            Keeps-cond (r.0 == 0)
              (Keeps-bind _ _ (link_block-Keeps b inode)
                λ inode'. append_blocks-Keeps n (b + 1) r.1 inode')
              (Keeps-pure inode))
          (Keeps-bind _ _ (append_index-Keeps b e inode)
            λ e'. append_blocks-Keeps n (b + 1) e' inode))
        (Keeps-pure inode)

  pub handle_append_directory-Keeps :
      (e : Option DirEntry) (index : ℕ) → Keeps P (handle_append_directory e index)
  unfolding handle_append_directory
  handle_append_directory-Keeps none index = Keeps-stuck
  handle_append_directory-Keeps (some e) index =
      Keeps-bind _ _ (Keeps-gets (load_inode_table index)) λ inode.
        Keeps-bind _ _ (Keeps-time stable) λ c. Keeps-bind _ _ (Keeps-time stable) λ m.
          Keeps-bind _ _ (first_block-Keeps (record inode { i_ctime = c; i_mtime = m })) λ inode'.
            Keeps-bind _ _ (append_blocks-Keeps 8 0 e inode')
              λ inode''. Keeps-puts stable (update_inode_table inode'' index)

  try_write-Keeps : (index : ℕ) (text : List ℕ) → Keeps P (try_write index text)
  unfolding try_write
  try_write-Keeps index text = Keeps-bind _ _ (Keeps-gets (load_block_entry index)) λ block.
      Keeps-bind _ _ (Keeps-lift (string_of block)) λ old.
        Keeps-cond (length old == block_size - 1) (Keeps-pure {A = ℕ} 0) (
          Keeps-bind _ _
            (Keeps-lift
              (put block (length old) (take (block_size - 1 - length old) text ++ 0 ∷ [])))
            λ block'.
              Keeps-bind _ _ (Keeps-puts stable (update_block_entry block' index))
                λ _. Keeps-pure (block_size - 1 - length old))

  write_blocks-Keeps :
      (n b : ℕ) (buf : List ℕ) (moved : ℕ) (inode : Inode)
      → Keeps P (write_blocks n b buf moved inode)
  unfolding write_blocks
  write_blocks-Keeps zero b buf moved inode = Keeps-pure (moved, inode)
  write_blocks-Keeps (suc n) b buf moved inode =
      Keeps-cond (ltb b inode.i_blocks)
        (Keeps-cond (ltb b 6)
          (Keeps-bind _ _ (try_write-Keeps (get_or inode.i_block b 0) buf) λ written.
            Keeps-cond (leb (length buf) written) (Keeps-pure (moved, inode)) (
              Keeps-bind _ _ (link_block-Keeps b inode)
                λ inode'. write_blocks-Keeps n (b + 1) (drop written buf) (moved + written) inode'))
          (Keeps-bind _ _ (write_index-Keeps b inode)
            λ _. write_blocks-Keeps n (b + 1) buf moved inode))
        (Keeps-pure (moved, inode))

  pub handle_write_inode-Keeps :
      (index : ℕ) (typed : List ℕ) → Keeps P (handle_write_inode index typed)
  unfolding handle_write_inode free_buffer
  handle_write_inode-Keeps index typed =
      Keeps-bind _ _ (Keeps-gets (load_inode_table index)) λ inode.
        Keeps-bind _ _ (Keeps-time stable) λ a. Keeps-bind _ _ (Keeps-time stable) λ m.
          Keeps-bind _ _ (first_block-Keeps (record inode { i_atime = a; i_mtime = m })) λ inode1.
            Keeps-bind _ _ (Keeps-lift (input typed)) λ buf.
              Keeps-bind _ _
                (write_blocks-Keeps 8 0 buf 0
                  (record inode1 { i_size = (inode1.i_size + length buf + 1) % 2 ^ 32 }))
                λ r.
                  Keeps-bind _ _ (Keeps-puts stable (update_inode_table r.1 index))
                    λ _. Keeps-cond (r.0 == 0) (Keeps-pure tt) Keeps-stuck
