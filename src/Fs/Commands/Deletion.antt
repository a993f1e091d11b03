-- ===== src/Fs/Commands/Deletion.antt =====
-- What the steps of `delete` of lab3/3.c do to a directory of one block.
pub mod Removal
pub mod Outcome
pub mod Examples
use xjtu_oslab.Base.{
  get_or, ℕ, ◌+◌, ◌-◌, ◌^◌, ◌%◌, ◌≤◌, ◌<◌, ◌≡◌, ◌≢◌, ◌⊎◌, refl, ap, ◌∙◌, sym, arith, List, [], ◌∷◌,
  ◌++◌, All, Bool-cases, inl, inr, false, true, ◌==◌, ==_iff, length, if◌then◌else◌,
}
use mathlib.Core.Path.{subst}
use xjtu_oslab.Fs.Bytes.{Bytes}
use xjtu_oslab.Fs.Bitmap.Claim.{bit_at, Cleared}
use xjtu_oslab.Fs.Disk.{
  update_block_entry, Inode, GroupDesc, load_group_desc, update_group_desc, load_inode_table,
  update_inode_table, load_inode_bitmap, inode_count,
}
use xjtu_oslab.Fs.Disk.RoundTrip.{InodeFits, IsInodeId, GroupDescFits}
use xjtu_oslab.Fs.Disk.Range.{load_group_desc-Fits}
use xjtu_oslab.Fs.Disk.InodeRange.{load_inode_table-Fits, load-update_inode_table-lt}
use xjtu_oslab.Fs.Disk.Frame.{
  load-update_inode_table, load-update_group_desc, load-update_block_entry,
}
use xjtu_oslab.Fs.State.{M, time, ft_reg_file, FileSystem, ok, and_then}
use xjtu_oslab.Fs.Directory.{is_open, delete_dir_entry}
use xjtu_oslab.Fs.Directory.Search.{File, find_file}
use xjtu_oslab.Fs.Directory.Delete.{is_file, without_file, delete_dir_entry_lem}
use xjtu_oslab.Fs.Space.{reset_inode_table}
use xjtu_oslab.Fs.Space.Reset.{InodeReset, blank, reset_inode_table_lem}
use xjtu_oslab.Fs.Walk.{
  handle_search_inode, handle_read_inode, touch_searched, touch_read, apply_search, visit_index,
  visit_inode, searching, deleting, resetting,
}
use xjtu_oslab.Fs.Setup.{chop}
use xjtu_oslab.Fs.Commands.{done, not_found, already_open, look_up, remove_entry, delete}
use xjtu_oslab.Fs.Commands.Creation.{
  Listing, Listing-own, Listing-other, Listing-search, Listing-block,
}
use xjtu_oslab.Fs.Commands.Creation.Appending.{stamped, stamped-InodeFits}
use xjtu_oslab.Fs.Commands.Creation.Outcome.{chop-append}

-- An inode without blocks has none to return.
pub handle_read_inode-none :
    (fs : FileSystem) (i : ℕ)
    → (load_inode_table i fs.disk).i_blocks ≡ 0
    → handle_read_inode i resetting fs ≡ ok tt fs
unfolding handle_read_inode visit_inode
handle_read_inode-none fs i none_left = rw none_left refl

-- The entry of the inode is zeros and the rest of the directory is as before.
pub InodeReset-inode :
    {d d' : Bytes} {k : ℕ}
    → InodeReset d k d'
    → (j : ℕ) → IsInodeId j
    → load_inode_table j d' ≡ (if j == k + 1 then blank else load_inode_table j d)
InodeReset-inode {d} {d'} {k} r j range =
    subst (λ i. load_inode_table i d' ≡ (if i == k + 1 then blank else load_inode_table i d))
      {x = (j - 1) % inode_count + 1} {y = j} (omega (arith, range)) (r.inodes (j - 1))

pub Listing-reset :
    {d d' : Bytes} {k here b z : ℕ} {files : List File}
    → IsInodeId here
    → here ≢ k + 1
    → InodeReset d k d'
    → Listing d here b files z
    → Listing d' here b files z
Listing-reset {d} {d'} {k} {here} {b} range ne r l =
    let test : (here == k + 1) ≡ false = ground arith in
    let kept : load_inode_table here d' ≡ load_inode_table here d =
      InodeReset-inode r here range ∙ rw test refl in
    record {
      fits = rw kept l.fits;
      one_block = rw kept l.one_block;
      block_at = rw kept l.block_at;
      holds = rw (r.same_blocks b) l.holds;
    }

-- The descriptor is stored.
pub Listing-counted :
    {d : Bytes} {here b z : ℕ} {files : List File} (g : GroupDesc)
    → GroupDescFits g
    → IsInodeId here
    → Listing d here b files z
    → Listing (update_group_desc g d) here b files z
Listing-counted {d} {here} {b} g f range l =
    let (_, _, _, kept, same) = load-update_group_desc d g here b f range in
    record {
      fits = rw kept l.fits;
      one_block = rw kept l.one_block;
      block_at = rw kept l.block_at;
      holds = rw same l.holds;
    }

-- The loop of `handle_search_inode` over one block.
visit_one :
    (n : Inode) (b : ℕ) (func : ℕ → M ℕ) (fs fs' : FileSystem)
    → n.i_blocks ≡ 1
    → get_or n.i_block 0 0 ≡ b
    → func b fs ≡ ok 1 fs'
    → visit_inode func n n.i_blocks 0 fs ≡ ok 1 fs'
unfolding visit_inode visit_index
visit_one n b func fs fs' one at ran = rw (one, at, ran) refl

-- `handle_search_inode` with `delete_dir_entry` in such a directory, whose first entry is not the file.
pub handle_search_inode-deleting :
    (fs : FileSystem) (here b : ℕ) (name : List ℕ) {first : File} {files : List File} {z : ℕ}
    → ((t : ℕ) → fs.clock t < 256 ^ 8)
    → IsInodeId here
    → All (λ c. 0 < c) name
    → 0 < find_file name 1 files
    → Listing fs.disk here b (first ∷ files) z
    → (d : Bytes) × (handle_search_inode name ft_reg_file here deleting fs
        ≡ ok 1 (record fs { disk = d; asked = fs.asked + 1 + 1 }))
      × Listing d here b (first ∷ without_file name 1 files) z
      × (load_inode_bitmap d ≡ load_inode_bitmap fs.disk)
      × (load_group_desc d ≡ load_group_desc fs.disk)
      × ((j : ℕ) → IsInodeId j → j ≢ here → load_inode_table j d ≡ load_inode_table j fs.disk)
unfolding handle_search_inode touch_searched apply_search time
handle_search_inode-deleting fs here b name {first} {files} {z} clock range text there l =
    let n : Inode = load_inode_table here fs.disk in
    let m : Inode = stamped n (fs.clock fs.asked) (fs.clock (fs.asked + 1)) in
    let fits =
      stamped-InodeFits n (fs.clock fs.asked) (fs.clock (fs.asked + 1)) (clock fs.asked)
        (clock (fs.asked + 1)) l.fits in
    let d1 : Bytes = update_inode_table m here fs.disk in
    let (_, l1) = Listing-own m fits range l.one_block l.block_at l in
    let fs1 : FileSystem = record fs { disk = d1; asked = fs.asked + 1 + 1 } in
    elim (delete_dir_entry_lem fs1 b name ft_reg_file text l1.holds) [
      | inl (missing, _) ↦ absurd (omega (arith, missing, there))
      | inr (_, block, holds, size, ran) ↦
          let (_, l2) =
            Listing-block block (first ∷ without_file name 1 files) z range size holds l1 in
          let (_, group1, _, bitmap1, _) =
            load-update_inode_table fs.disk m here here b fits range range in
          let (_, group2, _, bitmap2, _) = load-update_block_entry d1 block b b here size range in
          (
            update_block_entry block b d1,
            visit_one n b (delete_dir_entry name ft_reg_file) fs1
                (record fs1 { disk = update_block_entry block b d1 }) l.one_block l.block_at ran,
            l2,
            bitmap2 ∙ bitmap1,
            group2 ∙ group1,
            λ j other ne.
                let test : (j == here) ≡ false = ground arith in
                (load-update_block_entry d1 block b b j size other).4
                ∙ (load-update_inode_table fs.disk m here j b fits range other).0
                ∙ rw test refl,
          )
    ]
