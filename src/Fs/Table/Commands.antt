-- ===== src/Fs/Table/Commands.antt =====
-- The commands of lab3/3.c that leave the globals besides the image alone.
use xjtu_oslab.Base.{ℕ, ◌+◌, ◌-◌, ◌^◌, ◌%◌, ◌==◌, ◌||◌, List, length}
use xjtu_oslab.Fs.Disk.{
  load_inode_table, update_inode_table, load_group_desc, update_group_desc, Inode,
}
use xjtu_oslab.Fs.State.{FileSystem, FileType, ft_reg_file, ft_dir, M}
use xjtu_oslab.Fs.State.Keeps.{
  Keeps, IsStable, Keeps-bind, Keeps-pure, Keeps-gets, Keeps-reads, Keeps-lift, Keeps-cond,
  Keeps-puts, Keeps-time, Keeps-option,
}
use xjtu_oslab.Fs.Directory.{is_open}
use xjtu_oslab.Fs.Walk.{searching, deleting, printing, listing, resetting}
use xjtu_oslab.Fs.Create.{same_name, dot, dotdot}
use xjtu_oslab.Fs.Setup.{chop, read_password, copy_password, pwd}
use xjtu_oslab.Fs.Commands.{
  Reply, done, file_exists, not_found, invalid_argument, not_empty, already_open, not_open,
  permission_denied, invalid_mode, look_up, dir, add_entry, create_as, remove_entry, rmdir, delete,
}
use xjtu_oslab.Fs.Commands.Opened.{
  may_read, may_write, stamp_access, on_open_file, read_file, write_file,
}
use xjtu_oslab.Fs.Commands.Mode.{apply_rights, change_mode, signed_rights, chmod}
use xjtu_oslab.Fs.Table.Blocks.{
  handle_search_inode-Keeps, handle_read_inode-Keeps, reset_inode_table-Keeps,
}
use xjtu_oslab.Fs.Table.Files.{
  new_dir_entry-Keeps, handle_append_directory-Keeps, handle_write_inode-Keeps,
}

module _ {P : FileSystem → Type 0} (stable : IsStable P) where
  pub look_up-Keeps : (name : List ℕ) (type : FileType) → Keeps P (look_up name type)
  unfolding look_up
  look_up-Keeps name type =
      Keeps-bind _ _ (Keeps-reads (λ fs. fs.current_dir))
        λ here. handle_search_inode-Keeps stable name type here searching

  pub dir-Keeps : Keeps P dir
  unfolding dir
  dir-Keeps =
      Keeps-bind _ _ (Keeps-reads (λ fs. fs.current_dir))
        λ here. Keeps-bind _ _ (handle_read_inode-Keeps stable here listing) λ _. Keeps-pure done

  add_entry-Keeps : (name : List ℕ) (type : FileType) → Keeps P (add_entry name type)
  unfolding add_entry
  add_entry-Keeps name type = Keeps-bind _ _ (new_dir_entry-Keeps stable name type) λ e.
      Keeps-bind _ _ (Keeps-reads (λ fs. fs.current_dir)) λ here.
        Keeps-bind _ _ (Keeps-gets (load_inode_table here)) λ inode.
          Keeps-bind _ _
            (Keeps-puts stable (
              update_inode_table
                (record inode { i_size = (inode.i_size + (7 + length name)) % 2 ^ 32 }) here))
            λ _. Keeps-bind _ _ (handle_append_directory-Keeps stable e here) λ _. Keeps-pure done

  pub create_as-Keeps : (type : FileType) (text : List ℕ) → Keeps P (create_as type text)
  unfolding create_as
  create_as-Keeps type text = Keeps-bind _ _ (look_up-Keeps (chop text) type) λ inode_id.
      Keeps-cond (inode_id == 0) (add_entry-Keeps (chop text) type) (Keeps-pure file_exists)

  remove_entry-Keeps :
      (name : List ℕ) (type : FileType) (inode_id dirs : ℕ)
      → Keeps P (remove_entry name type inode_id dirs)
  unfolding remove_entry
  remove_entry-Keeps name type inode_id dirs =
      Keeps-bind _ _ (Keeps-gets (load_inode_table inode_id)) λ old.
        Keeps-bind _ _ (Keeps-puts stable (update_inode_table old inode_id)) λ _.
          Keeps-bind _ _ (handle_read_inode-Keeps stable inode_id resetting) λ _.
            Keeps-bind _ _ (Keeps-gets (load_inode_table inode_id)) λ inode.
              Keeps-bind _ _ (reset_inode_table-Keeps stable inode_id) λ _.
                Keeps-bind _ _ (Keeps-gets load_group_desc) λ g.
                  Keeps-bind _ _ (Keeps-reads (λ fs. fs.current_dir)) λ here.
                    Keeps-bind _ _ (Keeps-gets (load_inode_table here)) λ current.
                      Keeps-bind _ _
                        (Keeps-puts stable (
                          update_inode_table
                            (record current {
                              i_size = (current.i_size + 2 ^ 32 - (7 + length name)) % 2 ^ 32;
                            })
                            here))
                        λ _.
                          Keeps-bind _ _
                            (Keeps-puts stable (
                              update_group_desc (record g {
                                bg_free_blocks_count =
                                    (g.bg_free_blocks_count + inode.i_blocks) % 2 ^ 16;
                                bg_free_inodes_count = (g.bg_free_inodes_count + 1) % 2 ^ 16;
                                bg_used_dirs_count =
                                    (g.bg_used_dirs_count + 2 ^ 16 - dirs) % 2 ^ 16;
                              })))
                            λ _.
                              Keeps-bind _ _
                                (handle_search_inode-Keeps stable name type here deleting)
                                λ _. Keeps-pure done

  pub rmdir-Keeps : (text : List ℕ) → Keeps P (rmdir text)
  unfolding rmdir
  rmdir-Keeps text =
      Keeps-cond (same_name (chop text) dot || same_name (chop text) dotdot)
        (Keeps-pure invalid_argument)
        (Keeps-bind _ _ (look_up-Keeps (chop text) ft_dir) λ inode_id.
          Keeps-cond (inode_id == 0) (Keeps-pure not_found) (
            Keeps-bind _ _ (Keeps-gets (load_inode_table inode_id)) λ inode.
              Keeps-cond (inode.i_size == 17) (remove_entry-Keeps (chop text) ft_dir inode_id 1)
                (Keeps-pure not_empty)))

  pub delete-Keeps : (text : List ℕ) → Keeps P (delete text)
  unfolding delete
  delete-Keeps text = Keeps-bind _ _ (look_up-Keeps (chop text) ft_reg_file) λ inode_id.
      Keeps-cond (inode_id == 0) (Keeps-pure not_found) (
        Keeps-bind _ _ (Keeps-reads (λ fs. fs.fopen_table)) λ table.
          Keeps-cond (is_open inode_id table) (Keeps-pure already_open)
            (remove_entry-Keeps (chop text) ft_reg_file inode_id 0))

  pub stamp_access-Keeps : (inode_id : ℕ) (inode : Inode) → Keeps P (stamp_access inode_id inode)
  unfolding stamp_access
  stamp_access-Keeps inode_id inode =
      Keeps-bind _ _ (Keeps-time stable)
        λ a. Keeps-puts stable (update_inode_table (record inode { i_atime = a }) inode_id)

  pub on_open_file-Keeps :
      (text : List ℕ) (rest : ℕ → M Reply)
      → ((inode_id : ℕ) → Keeps P (rest inode_id))
      → Keeps P (on_open_file text rest)
  unfolding on_open_file
  on_open_file-Keeps text rest h =
      Keeps-bind _ _ (look_up-Keeps (chop text) ft_reg_file) λ inode_id.
        Keeps-cond (inode_id == 0) (Keeps-pure not_found) (
          Keeps-bind _ _ (Keeps-reads (λ fs. fs.fopen_table))
            λ table. Keeps-cond (is_open inode_id table) (h inode_id) (Keeps-pure not_open))

  pub read_file-Keeps : (text : List ℕ) → Keeps P (read_file text)
  unfolding read_file
  read_file-Keeps text = on_open_file-Keeps text _ λ inode_id.
      Keeps-bind _ _ (Keeps-gets (load_inode_table inode_id)) λ inode.
        Keeps-cond (may_read (inode.i_mode % 2 ^ 8))
          (Keeps-bind _ _ (stamp_access-Keeps inode_id inode) λ _.
            Keeps-bind _ _ (handle_read_inode-Keeps stable inode_id printing) λ _. Keeps-pure done)
          (Keeps-pure permission_denied)

  pub write_file-Keeps : (text typed : List ℕ) → Keeps P (write_file text typed)
  unfolding write_file
  write_file-Keeps text typed = on_open_file-Keeps text _ λ inode_id.
      Keeps-bind _ _ (Keeps-gets (load_inode_table inode_id)) λ inode.
        Keeps-cond (may_write (inode.i_mode % 2 ^ 8))
          (Keeps-bind _ _ (handle_write_inode-Keeps stable inode_id typed) λ _. Keeps-pure done)
          (Keeps-pure permission_denied)

  change_mode-Keeps :
      (sign permission : ℕ) (name : List ℕ) → Keeps P (change_mode sign permission name)
  unfolding change_mode
  change_mode-Keeps sign permission name =
      Keeps-bind _ _ (look_up-Keeps name ft_reg_file) λ inode_id.
        Keeps-cond (inode_id == 0) (Keeps-pure not_found) (
          Keeps-bind _ _ (Keeps-gets (load_inode_table inode_id)) λ inode.
            Keeps-bind _ _ (Keeps-time stable) λ c.
              Keeps-option (apply_rights sign permission inode.i_mode) (Keeps-pure invalid_mode)
                λ mode.
                  Keeps-bind _ _
                    (Keeps-puts stable
                      (update_inode_table (record inode { i_ctime = c; i_mode = mode }) inode_id))
                    λ _. Keeps-pure done)

  pub chmod-Keeps : (text : List ℕ) → Keeps P (chmod text)
  unfolding chmod
  chmod-Keeps text =
      Keeps-bind _ _ (Keeps-lift (signed_rights (chop text))) λ r. change_mode-Keeps r.0 r.1 r.2

  pub pwd-Keeps : (typed : List ℕ) → Keeps P (pwd typed)
  unfolding pwd
  pwd-Keeps typed = Keeps-bind _ _ (Keeps-gets load_group_desc) λ g.
      Keeps-bind _ _ (Keeps-lift (read_password typed)) λ (line, rest).
        Keeps-bind _ _ (Keeps-lift (copy_password (chop line) g.password)) λ password.
          Keeps-bind _ _ (Keeps-puts stable (update_group_desc (record g { password = password })))
            λ _. Keeps-pure rest
