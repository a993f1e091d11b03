-- ===== src/Fs/Commands.antt =====
-- lab3/3.c, lines 906 to 1045: the commands on directories and entries. Each answers with a reply,
-- which stands for the message that it prints.
pub mod Opened
pub mod Mode
pub mod Path
pub mod Creation
pub mod Deletion
pub mod Examples
use xjtu_oslab.Base.{
  ℕ, ◌+◌, ◌-◌, ◌^◌, ◌%◌, ◌/◌, List, [], ◌∷◌, ◌++◌, Option, none, some, Bool, true, false, ◌||◌,
  ◌==◌, leb, if◌then◌else◌, length,
}
use Prim.Native.Nat.{bit_and, bit_or}
use xjtu_oslab.Fs.Disk.{
  Inode, load_inode_table, update_inode_table, load_group_desc, update_group_desc,
}
use xjtu_oslab.Fs.State.{
  FileType, ft_reg_file, ft_dir, FileSystem, ok, M, pure, ◌>>=◌, ◌>>◌, gets, puts, time, lift,
}
use xjtu_oslab.Fs.Space.{reset_inode_table}
use xjtu_oslab.Fs.Directory.{is_open}
use xjtu_oslab.Fs.Walk.{
  handle_search_inode, searching, deleting, handle_read_inode, printing, listing, resetting,
}
use xjtu_oslab.Fs.Create.{same_name, dot, dotdot, new_dir_entry, handle_append_directory}
use xjtu_oslab.Fs.Files.{handle_write_inode}
use xjtu_oslab.Fs.Setup.{chop, root_name}

-- `done` where no message is printed.
pub data Reply : Type 0 where
  done file_exists not_found invalid_argument not_empty not_directory : Reply
  already_open not_open too_many permission_denied invalid_mode not_a_command : Reply

-- A field of the globals.
abbrev pub asks {ℓ} : {A : Type ℓ} → (FileSystem → A) → M A
asks f fs = ok (f fs) fs

-- The search in the current directory that most commands begin with.
unfoldable pub look_up : List ℕ → FileType → M ℕ
look_up name type = do
  here ← asks (λ fs. fs.current_dir)
  handle_search_inode name type here searching

unfoldable pub dir : M Reply
dir = do here ← asks (λ fs. fs.current_dir); handle_read_inode here listing; pure done

-- `mkdir` and `create` behind their tests.
unfoldable pub add_entry : List ℕ → FileType → M Reply
add_entry name type = do
  entry ← new_dir_entry name type
  here ← asks (λ fs. fs.current_dir)
  inode ← gets (load_inode_table here)
  puts (
      update_inode_table (record inode { i_size = (inode.i_size + (7 + length name)) % 2 ^ 32 })
        here)
  handle_append_directory entry here
  pure done

unfoldable pub create_as : FileType → List ℕ → M Reply
unfolding look_up add_entry
create_as type text = do
  let name : List ℕ = chop text
  inode_id ← look_up name type
  elim (inode_id == 0) [ false ↦ pure file_exists | true ↦ add_entry name type ]

unfoldable pub mkdir : List ℕ → M Reply
unfolding create_as
mkdir text = create_as ft_dir text

unfoldable pub create : List ℕ → M Reply
unfolding create_as
create text = create_as ft_reg_file text

-- `rmdir` and `delete` behind their tests: the blocks and the inode are returned and counted, and the
-- entry leaves the directory. `dirs` is what is taken off `bg_used_dirs_count`.
unfoldable pub remove_entry : List ℕ → FileType → ℕ → ℕ → M Reply
remove_entry name type inode_id dirs = do
  old ← gets (load_inode_table inode_id)
  puts (update_inode_table old inode_id)
  handle_read_inode inode_id resetting
  inode ← gets (load_inode_table inode_id)
  reset_inode_table inode_id
  g ← gets load_group_desc
  here ← asks (λ fs. fs.current_dir)
  current ← gets (load_inode_table here)
  puts (
      update_inode_table
        (record current { i_size = (current.i_size + 2 ^ 32 - (7 + length name)) % 2 ^ 32 }) here)
  puts (
      update_group_desc (record g {
        bg_free_blocks_count = (g.bg_free_blocks_count + inode.i_blocks) % 2 ^ 16;
        bg_free_inodes_count = (g.bg_free_inodes_count + 1) % 2 ^ 16;
        bg_used_dirs_count = (g.bg_used_dirs_count + 2 ^ 16 - dirs) % 2 ^ 16;
      }))
  _ ← handle_search_inode name type here deleting
  pure done

unfoldable pub rmdir : List ℕ → M Reply
unfolding look_up remove_entry
rmdir text = do
  let name : List ℕ = chop text
  elim (same_name name dot || same_name name dotdot) [
    | true ↦ pure invalid_argument
    | false ↦ do
      inode_id ← look_up name ft_dir
      elim (inode_id == 0) [
        | true ↦ pure not_found
        | false ↦ do
          inode ← gets (load_inode_table inode_id)
          elim (inode.i_size == 17) [
            | false ↦ pure not_empty
            | true ↦ remove_entry name ft_dir inode_id 1
          ]
      ]
  ]

unfoldable pub delete : List ℕ → M Reply
unfolding look_up remove_entry
delete text = do
  let name : List ℕ = chop text
  inode_id ← look_up name ft_reg_file
  elim (inode_id == 0) [
    | true ↦ pure not_found
    | false ↦ do
      table ← asks (λ fs. fs.fopen_table)
      elim (is_open inode_id table) [
        | true ↦ pure already_open
        | false ↦ remove_entry name ft_reg_file inode_id 0
      ]
  ]

-- The path up to its last `/`, if it has one.
unfoldable pub cut_last : List ℕ → Option (List ℕ)
cut_last [] = none
cut_last (c ∷ cs) = elim (cut_last cs) [
  | some p ↦ some (c ∷ p)
  | none ↦ if c == 47 then some [] else none
]

unfoldable pub parent_path : List ℕ → List ℕ
unfolding cut_last
parent_path path = elim (cut_last path) [ none ↦ root_name | some p ↦ p ]

-- `strcat` into the 256 bytes of `current_path`.
unfoldable pub child_path : List ℕ → List ℕ → Option (List ℕ)
child_path path name =
    if leb (length path + 1 + length name + 1) 256 then some (path ++ 47 ∷ name) else none

unfoldable pub enter : ℕ → List ℕ → M Reply
enter inode_id path fs = ok done (record fs { current_path = path; current_dir = inode_id })

-- `cd` once it has found a directory.
unfoldable pub change_dir : List ℕ → ℕ → M Reply
unfolding parent_path child_path enter
change_dir name inode_id = elim (same_name name dot) [
  | true ↦ pure done
  | false ↦ do
    path ← asks (λ fs. fs.current_path)
    elim (same_name name dotdot) [
      | true ↦ enter inode_id (parent_path path)
      | false ↦ lift (child_path path name) >>= enter inode_id
    ]
]

unfoldable pub cd : List ℕ → M Reply
unfolding look_up change_dir
cd text = do
  let name : List ℕ = chop text
  inode_id ← look_up name ft_dir
  elim (inode_id == 0) [
    | true ↦ pure not_found
    | false ↦ do
      inode ← gets (load_inode_table inode_id)
      elim (inode.i_mode / 2 ^ 8 == 2) [
        | false ↦ pure not_directory
        | true ↦ change_dir name inode_id
      ]
  ]
