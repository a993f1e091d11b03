-- ===== src/Fs/Commands/Deletion/Removal.antt =====
-- `remove_entry` of Fs/Commands for a file without blocks, and what it does to the image of lab3/3.c.
use xjtu_oslab.Base.{
  ℕ, ◌+◌, ◌-◌, ◌^◌, ◌%◌, ◌<◌, ◌≡◌, ◌≢◌, refl, ap, ◌∙◌, sym, arith, List, ◌∷◌, All, false, true,
  ◌==◌, length,
}
use xjtu_oslab.Fs.Bytes.{Bytes}
use xjtu_oslab.Fs.Bitmap.Claim.{Cleared}
use xjtu_oslab.Fs.Disk.{
  Inode, GroupDesc, load_group_desc, update_group_desc, load_inode_table, update_inode_table,
  load_inode_bitmap,
}
use xjtu_oslab.Fs.Disk.RoundTrip.{InodeFits, IsInodeId, GroupDescFits}
use xjtu_oslab.Fs.Disk.Range.{load_group_desc-Fits}
use xjtu_oslab.Fs.Disk.InodeRange.{load_inode_table-Fits, load-update_inode_table-lt}
use xjtu_oslab.Fs.Disk.Frame.{load-update_inode_table, load-update_group_desc}
use xjtu_oslab.Fs.State.{ft_reg_file, FileSystem, ok, and_then}
use xjtu_oslab.Fs.Directory.Search.{File, find_file}
use xjtu_oslab.Fs.Directory.Delete.{without_file}
use xjtu_oslab.Fs.Space.{reset_inode_table}
use xjtu_oslab.Fs.Space.Reset.{blank, reset_inode_table_lem}
use xjtu_oslab.Fs.Walk.{handle_search_inode, handle_read_inode, deleting, resetting}
use xjtu_oslab.Fs.Commands.{done, remove_entry}
use xjtu_oslab.Fs.Commands.Creation.{Listing, Listing-own, Listing-other}
use xjtu_oslab.Fs.Commands.Deletion.{
  handle_read_inode-none, InodeReset-inode, Listing-reset, Listing-counted,
  handle_search_inode-deleting,
}

-- The descriptor with one more free inode.
abbrev pub one_more : GroupDesc → GroupDesc
one_more g = record g { bg_free_inodes_count = (g.bg_free_inodes_count + 1) % 2 ^ 16 }

one_more-GroupDescFits : (g : GroupDesc) → GroupDescFits g → GroupDescFits (one_more g)
one_more-GroupDescFits g f = record {
  bg_volume_name = f.bg_volume_name;
  bg_block_bitmap = f.bg_block_bitmap;
  bg_inode_bitmap = f.bg_inode_bitmap;
  bg_inode_table = f.bg_inode_table;
  bg_free_blocks_count = f.bg_free_blocks_count;
  bg_free_inodes_count = omega arith;
  bg_used_dirs_count = f.bg_used_dirs_count;
  password = f.password;
  bg_pad = f.bg_pad;
  texts = f.texts;
}

-- What `remove_entry` counts for a file without blocks.
released :
    (g : GroupDesc)
    → GroupDescFits g
    → (record g {
      bg_free_blocks_count = (g.bg_free_blocks_count + 0) % 2 ^ 16;
      bg_free_inodes_count = (g.bg_free_inodes_count + 1) % 2 ^ 16;
      bg_used_dirs_count = (g.bg_used_dirs_count + 2 ^ 16 - 0) % 2 ^ 16;
    })
      ≡ one_more g
released g f =
    let blocks : (g.bg_free_blocks_count + 0) % 2 ^ 16 ≡ g.bg_free_blocks_count =
      omega (arith, f.bg_free_blocks_count) in
    let dirs : (g.bg_used_dirs_count + 2 ^ 16 - 0) % 2 ^ 16 ≡ g.bg_used_dirs_count =
      omega (arith, f.bg_used_dirs_count) in
    rw (blocks, dirs) refl

-- The inode of the directory with the new size.
abbrev shrunk : Inode → ℕ → Inode
shrunk n size = record n { i_size = (n.i_size + 2 ^ 32 - size) % 2 ^ 32 }

shrunk-InodeFits : (n : Inode) (size : ℕ) → InodeFits n → InodeFits (shrunk n size)
shrunk-InodeFits n size f = record {
  i_mode = f.i_mode;
  i_blocks = f.i_blocks;
  i_size = omega arith;
  i_atime = f.i_atime;
  i_ctime = f.i_ctime;
  i_mtime = f.i_mtime;
  i_dtime = f.i_dtime;
  i_block = f.i_block;
  i_pad = f.i_pad;
}

-- The steps of `remove_entry`, one after the other.
remove_entry_ran :
    (fs fs' : FileSystem) (name : List ℕ) (i : ℕ) (d1 d2 : Bytes)
    → update_inode_table (load_inode_table i fs.disk) i fs.disk ≡ d1
    → handle_read_inode i resetting (record fs { disk = d1 }) ≡ ok tt (record fs { disk = d1 })
    → (load_inode_table i d1).i_blocks ≡ 0
    → reset_inode_table i (record fs { disk = d1 }) ≡ ok tt (record fs { disk = d2 })
    → GroupDescFits (load_group_desc d2)
    → handle_search_inode name ft_reg_file fs.current_dir deleting (record fs {
      disk = update_group_desc (one_more (load_group_desc d2)) (
          update_inode_table
            (shrunk (load_inode_table fs.current_dir d2) (7 + length name))
            fs.current_dir
            d2);
    })
      ≡ ok 1 fs'
    → remove_entry name ft_reg_file i 0 fs ≡ ok done fs'
unfolding remove_entry
remove_entry_ran fs fs' name i d1 d2 first read empty reset fits searched =
    rw (first, read, and_then, empty, reset, released (load_group_desc d2) fits, searched) refl

-- Inode `k + 1` is free and zeros, one more inode is counted as free, and the list of the directory
-- has lost the file.
pub record Deleted (fs : FileSystem) (b k : ℕ) (name : List ℕ) (first : File) (files : List File)
    (z : ℕ) (fs' : FileSystem) : Type 0 where
  pub cleared : Cleared (load_inode_bitmap fs.disk) k (load_inode_bitmap fs'.disk)
  pub erased : load_inode_table (k + 1) fs'.disk ≡ blank
  pub counted : load_group_desc fs'.disk ≡ one_more (load_group_desc fs.disk)
  pub listing : Listing fs'.disk fs.current_dir b (first ∷ without_file name 1 files) z
  pub same_table : fs'.fopen_table ≡ fs.fopen_table
  pub same_dir : fs'.current_dir ≡ fs.current_dir

module _ (fs : FileSystem) (b k : ℕ) (name : List ℕ) {first : File} {files : List File} {z : ℕ}
    (clock : (t : ℕ) → fs.clock t < 256 ^ 8) (image : (p : ℕ) → fs.disk p < 256)
    (own : IsInodeId fs.current_dir) (in_range : IsInodeId (k + 1)) (ne : fs.current_dir ≢ k + 1)
    (text : All (λ c. 0 < c) name) (there : 0 < find_file name 1 files)
    (empty : (load_inode_table (k + 1) fs.disk).i_blocks ≡ 0)
    (l : Listing fs.disk fs.current_dir b (first ∷ files) z) where
  pub remove_entry-Deleted :
      (fs' : FileSystem) × (remove_entry name ft_reg_file (k + 1) 0 fs ≡ ok done fs')
      × Deleted fs b k name first files z fs'
  remove_entry-Deleted =
      let here = fs.current_dir in
      let old : Inode = load_inode_table (k + 1) fs.disk in
      let old_fits = load_inode_table-Fits (k + 1) fs.disk image in
      let (at1, group1, _, bitmap1, _) =
        load-update_inode_table fs.disk old (k + 1) (k + 1) b old_fits in_range in_range in
      let test : (k + 1 == k + 1) ≡ true = ground arith in
      let d1 : Bytes = update_inode_table old (k + 1) fs.disk in
      let stored : load_inode_table (k + 1) d1 ≡ old = at1 ∙ rw test refl in
      let fs1 : FileSystem = record fs { disk = d1 } in
      let l1 = Listing-other old (k + 1) old_fits in_range own ne l in
      let read = handle_read_inode-none fs1 (k + 1) (rw stored empty) in
      let (d2, reset, r) =
        reset_inode_table_lem fs1 k (load-update_inode_table-lt (k + 1) fs.disk image)
          (omega (arith, in_range)) in
      let l2 = Listing-reset own ne r l1 in
      let n : Inode = shrunk (load_inode_table here d2) (7 + length name) in
      let fits = shrunk-InodeFits (load_inode_table here d2) (7 + length name) l2.fits in
      let d3 : Bytes = update_inode_table n here d2 in
      let (_, l3) = Listing-own n fits own l2.one_block l2.block_at l2 in
      let (at3, group3, _, bitmap3, _) =
        load-update_inode_table d2 n here (k + 1) b fits own in_range in
      let g : GroupDesc = load_group_desc d2 in
      let same_group : g ≡ load_group_desc fs.disk = r.same_group ∙ group1 in
      let g_fits : GroupDescFits g = rw same_group (load_group_desc-Fits fs.disk image) in
      let more_fits = one_more-GroupDescFits g g_fits in
      let d4 : Bytes = update_group_desc (one_more g) d3 in
      let (group4, _, bitmap4, at4, _) =
        load-update_group_desc d3 (one_more g) (k + 1) b more_fits in_range in
      let l4 = Listing-counted (one_more g) more_fits own l3 in
      let fs4 : FileSystem = record fs { disk = d4 } in
      let (d5, searched, l5, bitmap5, group5, at5) =
        handle_search_inode-deleting fs4 here b name clock own text there l4 in
      let other : (k + 1 == here) ≡ false = ground arith in
      let zeroed : load_inode_table (k + 1) d2 ≡ blank =
        InodeReset-inode r (k + 1) in_range ∙ rw test refl in
      (
        record fs4 { disk = d5; asked = fs.asked + 1 + 1 },
        remove_entry_ran fs (record fs4 { disk = d5; asked = fs.asked + 1 + 1 }) name (k + 1) d1 d2
            refl read (rw stored empty) reset g_fits searched,
        record {
          cleared = rw (bitmap5, bitmap4, bitmap3, sym bitmap1) r.cleared;
          erased = at5 (k + 1) in_range (λ e. ne (sym e)) ∙ at4 ∙ at3 ∙ rw other zeroed;
          counted = group5 ∙ group4 ∙ ap one_more same_group;
          listing = l5;
          same_table = refl;
          same_dir = refl;
        },
      )
