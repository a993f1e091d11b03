-- ===== src/Fs/Commands/Creation/Entry.antt =====
-- `new_dir_entry` of lab3/3.c for a file, seen from the directory that is open.
use xjtu_oslab.Base.{
  ℕ, ◌+◌, ◌^◌, ◌%◌, ◌<◌, ◌≡◌, ◌≢◌, refl, arith, List, Bool-cases, inl, inr, some, none, false, ◌==◌,
}
use Prim.Native.Nat.{bit_or}
use xjtu_oslab.Fs.Bytes.{Bytes}
use xjtu_oslab.Fs.Disk.{Inode, load_inode_table, update_inode_table, load_inode_bitmap}
use xjtu_oslab.Fs.Disk.RoundTrip.{InodeFits, IsInodeId}
use xjtu_oslab.Fs.Disk.Frame.{load-update_inode_table}
use xjtu_oslab.Fs.State.{and_then, lift, ft_reg_file, FileSystem, ok}
use xjtu_oslab.Fs.Directory.{DirEntry, init_dir_entry_with_inode}
use xjtu_oslab.Fs.Directory.Search.{File}
use xjtu_oslab.Fs.Space.{new_inode}
use xjtu_oslab.Fs.Create.{
  init_dir_entry, extension, is_executable, finish_file, finish_entry, new_dir_entry,
}
use xjtu_oslab.Fs.Commands.Creation.{Listing, Listing-other}

-- What the function leaves behind: the directory, the bitmap of the inodes, and the globals but the
-- image.
pub record Finished (fs : FileSystem) (here b z : ℕ) (files : List File) (d : Bytes) : Type 0 where
  pub listing : Listing d here b files z
  pub same_bitmap : load_inode_bitmap d ≡ load_inode_bitmap fs.disk

with_mode-InodeFits :
    (m : Inode) (x : ℕ) → InodeFits m → x < 256 ^ 2 → InodeFits (record m { i_mode = x })
with_mode-InodeFits m x f h = record {
  i_mode = h;
  i_blocks = f.i_blocks;
  i_size = f.i_size;
  i_atime = f.i_atime;
  i_ctime = f.i_ctime;
  i_mtime = f.i_mtime;
  i_dtime = f.i_dtime;
  i_block = f.i_block;
  i_pad = f.i_pad;
}

finish_file_lem :
    (fs : FileSystem) (name : List ℕ) (e : DirEntry) (m : Inode) (x here b : ℕ) {files : List File}
    {z : ℕ}
    → InodeFits m
    → IsInodeId e.inode
    → IsInodeId here
    → here ≢ e.inode
    → Listing fs.disk here b files z
    → (d : Bytes) × (finish_file name e (record m { i_mode = x }) fs
        ≡ ok tt (record fs { disk = d }))
      × Finished fs here b z files d
unfolding finish_file
finish_file_lem fs name e m x here b f range own ne l =
    elim (Bool-cases (is_executable (extension name))) [
      | inl known ↦
          let fits = with_mode-InodeFits m ((x + 1) % 2 ^ 16) f (omega arith) in
          let (_, _, _, bitmap, _) =
            load-update_inode_table fs.disk (record m { i_mode = (x + 1) % 2 ^ 16 }) e.inode here b
              fits range own in
          (
            update_inode_table (record m { i_mode = (x + 1) % 2 ^ 16 }) e.inode fs.disk,
            rw (finish_file, known) refl,
            record {
              listing =
                  Listing-other (record m { i_mode = (x + 1) % 2 ^ 16 }) e.inode fits range own ne
                    l;
              same_bitmap = bitmap;
            },
          )
      | inr other ↦
          (fs.disk, rw (finish_file, other) refl, record { listing = l; same_bitmap = refl })
    ]

init_dir_entry-some :
    (fs fs1 : FileSystem) (name : List ℕ) (i : ℕ) (e : DirEntry)
    → new_inode fs ≡ ok i fs1
    → (i == 0) ≡ false
    → init_dir_entry_with_inode name ft_reg_file i ≡ some e
    → init_dir_entry name ft_reg_file fs ≡ ok (some e) fs1
unfolding init_dir_entry
init_dir_entry-some fs fs1 name i e taken test made = rw (taken, and_then, test, lift, made) refl

pub new_dir_entry_lem :
    (fs fs1 : FileSystem) (name : List ℕ) (i : ℕ) (e : DirEntry) (here b : ℕ) {files : List File}
    {z : ℕ}
    → new_inode fs ≡ ok i fs1
    → init_dir_entry_with_inode name ft_reg_file i ≡ some e
    → e.inode ≡ i
    → InodeFits (load_inode_table i fs1.disk)
    → IsInodeId i
    → IsInodeId here
    → here ≢ i
    → Listing fs1.disk here b files z
    → (d : Bytes) × (new_dir_entry name ft_reg_file fs ≡ ok (some e) (record fs1 { disk = d }))
      × Finished fs1 here b z files d
unfolding new_dir_entry finish_entry
new_dir_entry_lem fs fs1 name i e here b taken made number fits range own ne l =
    let test : (i == 0) ≡ false = ground arith in
    let entry = init_dir_entry-some fs fs1 name i e taken test made in
    let m : Inode = load_inode_table e.inode fs1.disk in
    let (d, ran, finished) =
      finish_file_lem fs1 name e m (bit_or m.i_mode 256) here b (rw number fits) (rw number range)
        own (rw number ne) l in
    (d, rw (entry, and_then, ran) refl, finished)

-- No inode is free.
pub new_dir_entry-none :
    (fs : FileSystem) (name : List ℕ)
    → new_inode fs ≡ ok 0 fs
    → new_dir_entry name ft_reg_file fs ≡ ok none fs
unfolding new_dir_entry init_dir_entry
new_dir_entry-none fs name full = rw full refl
