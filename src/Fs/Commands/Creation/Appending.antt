-- ===== src/Fs/Commands/Creation/Appending.antt =====
-- `handle_append_directory` of lab3/3.c on a directory of one block with room.
use xjtu_oslab.Base.{ℕ, ◌+◌, ◌^◌, ◌≤◌, ◌<◌, ◌≡◌, refl, sym, ◌∙◌, List, All, some, get_or, length}
use mathlib.Core.Option.{some_inj}
use mathlib.Core.Path.{subst}
use xjtu_oslab.Fs.Bytes.{Bytes}
use xjtu_oslab.Fs.Disk.{
  Inode, load_inode_table, update_inode_table, load_inode_bitmap, update_block_entry,
}
use xjtu_oslab.Fs.Disk.RoundTrip.{InodeFits, IsInodeId}
use xjtu_oslab.Fs.Disk.Frame.{load-update_inode_table, load-update_block_entry}
use xjtu_oslab.Fs.State.{FileType, file_type_code, FileSystem, ok, time}
use xjtu_oslab.Fs.Directory.{DirEntry, append_dir_entry, init_dir_entry_with_inode}
use xjtu_oslab.Fs.Directory.Search.{File}
use xjtu_oslab.Fs.Directory.Insert.{Inserted, append_dir_entry_lem}
use xjtu_oslab.Fs.Create.{first_block, append_blocks, handle_append_directory}
use xjtu_oslab.Fs.Commands.Creation.{Listing, Listing-own, Listing-block}

-- The inode of the directory with new times.
abbrev pub stamped : Inode → ℕ → ℕ → Inode
stamped n ctime mtime = record n { i_ctime = ctime; i_mtime = mtime }

pub stamped-InodeFits :
    (n : Inode) (ctime mtime : ℕ)
    → ctime < 256 ^ 8
    → mtime < 256 ^ 8
    → InodeFits n
    → InodeFits (stamped n ctime mtime)
stamped-InodeFits n ctime mtime c m f = record {
  i_mode = f.i_mode;
  i_blocks = f.i_blocks;
  i_size = f.i_size;
  i_atime = f.i_atime;
  i_ctime = c;
  i_mtime = m;
  i_dtime = f.i_dtime;
  i_block = f.i_block;
  i_pad = f.i_pad;
}

-- The one round of the loop: the entry fits the block.
append_blocks_one :
    (n : Inode) (b : ℕ) (e e' : DirEntry) (fs fs' : FileSystem)
    → n.i_blocks ≡ 1
    → get_or n.i_block 0 0 ≡ b
    → append_dir_entry e b fs ≡ ok (1, e') fs'
    → append_blocks 8 0 e n fs ≡ ok n fs'
unfolding append_blocks
append_blocks_one n b e e' fs fs' one at done = rw (one, at, done) refl

first_block_one : (n : Inode) (fs : FileSystem) → n.i_blocks ≡ 1 → first_block n fs ≡ ok n fs
unfolding first_block
first_block_one n fs one = rw one refl

-- A new entry in a directory of one block whose list has room for it: the file is put into the list,
-- and the bitmap of the inodes is what it was.
pub record Entered (fs : FileSystem) (here b : ℕ) (file : File) (files : List File) (e : DirEntry)
    : Type 0 where
  pub disk' : Bytes
  pub files' : List File
  pub z' : ℕ
  pub ran :
      handle_append_directory (some e) here fs
      ≡ ok tt (record fs { disk = disk'; asked = fs.asked + 1 + 1 })
  pub inserted : Inserted file files files'
  pub listing : Listing disk' here b files' z'
  pub same_bitmap : load_inode_bitmap disk' ≡ load_inode_bitmap fs.disk

pub handle_append_directory_lem :
    (fs : FileSystem) (here b : ℕ) (type : FileType) (file : File) {files : List File} {z : ℕ}
    (e : DirEntry)
    → ((t : ℕ) → fs.clock t < 256 ^ 8)
    → IsInodeId here
    → file.kind ≡ file_type_code type
    → All (λ c. 0 < c) file.file_name
    → 0 < file.number
    → file.number < 65536
    → z + 7 + length file.file_name ≤ 250
    → init_dir_entry_with_inode file.file_name type file.number ≡ some e
    → Listing fs.disk here b files z
    → Entered fs here b file files e
unfolding handle_append_directory time
handle_append_directory_lem fs here b type file {files} {z} e clock range kind text used word fit
      made l =
    let now : FileSystem = record fs { asked = fs.asked + 1 + 1 } in
    let n : Inode =
      stamped (load_inode_table here fs.disk) (fs.clock fs.asked) (fs.clock (fs.asked + 1)) in
    let (e1, e', block, files', z', made1, done, inserted, holds, _, size) =
      append_dir_entry_lem now b type file kind text used word fit l.holds in
    let same : e1 ≡ e = some_inj.0 (sym made1 ∙ made) in
    let appended : append_dir_entry e b now
        ≡ ok (1, e') (record now { disk = update_block_entry block b fs.disk }) =
      subst
        (λ x.
          append_dir_entry x b now
          ≡ ok (1, e') (record now { disk = update_block_entry block b fs.disk }))
        same done in
    let (kept, l1) = Listing-block block files' z' range size holds l in
    let fits =
      stamped-InodeFits (load_inode_table here fs.disk) (fs.clock fs.asked)
        (fs.clock (fs.asked + 1)) (clock fs.asked) (clock (fs.asked + 1)) l.fits in
    let (_, _, _, stored_bitmap, _) =
      load-update_inode_table (update_block_entry block b fs.disk) n here here b fits range range in
    let (_, _, _, block_bitmap, _) = load-update_block_entry fs.disk block b b here size range in
    let (_, l2) = Listing-own n fits range l.one_block l.block_at l1 in
    record {
      disk' = update_inode_table n here (update_block_entry block b fs.disk);
      files' = files';
      z' = z';
      ran =
          rw
            (
              first_block_one n now l.one_block,
              append_blocks_one n b e e' now
                  (record now { disk = update_block_entry block b fs.disk }) l.one_block l.block_at
                  appended,
            )
            refl;
      inserted = inserted;
      listing = l2;
      same_bitmap = stored_bitmap ∙ block_bitmap;
    }
