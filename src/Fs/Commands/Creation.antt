-- ===== src/Fs/Commands/Creation.antt =====
-- A directory of one block in the image of lab3/3.c, and what the loads and updates of the image do to
-- it.
pub mod Appending
pub mod Entry
pub mod Outcome
pub mod Examples
use xjtu_oslab.Base.{
  ◌-◌, ◌%◌, ◌≤◌, ◌++◌, ap, ◌∙◌, sym, if◌then◌else◌, ℕ, ◌+◌, ◌<◌, ◌≡◌, ◌≢◌, refl, arith, List, [],
  ◌∷◌, All, false, true, ◌==◌, ==_iff, Bool-cases, inl, inr, get_or, take, length,
}
use mathlib.Core.List.{append-nil}
use mathlib.Core.Path.{subst}
use xjtu_oslab.Fs.Bytes.{Bytes}
use xjtu_oslab.Fs.Disk.{
  block_size, inode_count, Inode, load_inode_table, update_inode_table, load_block_entry,
  update_block_entry,
}
use xjtu_oslab.Fs.Disk.RoundTrip.{InodeFits, IsInodeId}
use xjtu_oslab.Fs.Disk.Frame.{load-update_inode_table, load-update_block_entry}
use xjtu_oslab.Fs.State.{FileType, file_type_code, FileSystem, ok}
use xjtu_oslab.Fs.Directory.Search.{File, find_file}
use xjtu_oslab.Fs.Directory.Entries.{Holds, Holds-IsDirectory}
use xjtu_oslab.Fs.Walk.{handle_search_inode, searching}
use xjtu_oslab.Fs.Walk.Lookup.{Directories, no_block, block, handle_search_inode_lem}
use xjtu_oslab.Fs.Space.Entry.{InodeTaken}

-- Inode `here` fits its types and has one block, `b`, which holds these files with the free entry at
-- `z`.
pub record Listing (d : Bytes) (here b : ℕ) (files : List File) (z : ℕ) : Type 0 where
  pub fits : InodeFits (load_inode_table here d)
  pub one_block : (load_inode_table here d).i_blocks ≡ 1
  pub block_at : get_or (load_inode_table here d).i_block 0 0 ≡ b
  pub holds : Holds (load_block_entry b d) 0 files z

take_one : (l : List ℕ) (b : ℕ) → 0 < length l → get_or l 0 0 ≡ b → take 1 l ≡ b ∷ []
take_one [] b h e = absurd (omega arith)
take_one (x ∷ l) b h e = ap (λ a. a ∷ []) e

pub InodeTaken-inode :
    {d d' : Bytes} {k : ℕ} {n : Inode}
    → InodeTaken d k n d'
    → (j : ℕ) → IsInodeId j
    → load_inode_table j d' ≡ (if j == k + 1 then n else load_inode_table j d)
InodeTaken-inode {d} {d'} {k} {n} t j range =
    subst (λ i. load_inode_table i d' ≡ (if i == k + 1 then n else load_inode_table i d))
      {x = (j - 1) % inode_count + 1} {y = j} (omega (arith, range)) (t.inodes (j - 1))

module _ {d : Bytes} {here b z : ℕ} {files : List File} where
  -- Another inode is stored.
  pub Listing-other :
      (n : Inode) (i : ℕ)
      → InodeFits n
      → IsInodeId i
      → IsInodeId here
      → here ≢ i
      → Listing d here b files z
      → Listing (update_inode_table n i d) here b files z
  Listing-other n i f range own ne l =
      let (inode, _, _, _, same) = load-update_inode_table d n i here b f range own in
      let test : (here == i) ≡ false = ground arith in
      let kept : load_inode_table here (update_inode_table n i d) ≡ load_inode_table here d =
        inode ∙ rw test refl in
      record {
        fits = rw kept l.fits;
        one_block = rw kept l.one_block;
        block_at = rw kept l.block_at;
        holds = rw same l.holds;
      }

  -- The inode of the directory is stored, with the same block.
  pub Listing-own :
      (n : Inode)
      → InodeFits n
      → IsInodeId here
      → n.i_blocks ≡ 1
      → get_or n.i_block 0 0 ≡ b
      → Listing d here b files z
      → (load_inode_table here (update_inode_table n here d) ≡ n)
        × Listing (update_inode_table n here d) here b files z
  Listing-own n f range one at l =
      let (inode, _, _, _, same) = load-update_inode_table d n here here b f range range in
      let test : (here == here) ≡ true = ground arith in
      let stored : load_inode_table here (update_inode_table n here d) ≡ n = inode ∙ rw test refl in
      (
        stored,
        record {
          fits = rw stored f;
          one_block = rw stored one;
          block_at = rw stored at;
          holds = rw same l.holds;
        },
      )

  -- The block of the directory is stored.
  pub Listing-block :
      (entry : List ℕ) (files' : List File) (z' : ℕ)
      → IsInodeId here
      → length entry ≡ block_size
      → Holds entry 0 files' z'
      → Listing d here b files z
      → (load_inode_table here (update_block_entry entry b d) ≡ load_inode_table here d)
        × Listing (update_block_entry entry b d) here b files' z'
  Listing-block entry files' z' range size h l =
      let (read, _, _, _, kept) = load-update_block_entry d entry b b here size range in
      let test : (b == b) ≡ true = ground arith in
      let stored : load_block_entry b (update_block_entry entry b d) ≡ entry =
        read ∙ rw test refl in
      (
        kept,
        record {
          fits = rw kept l.fits;
          one_block = rw kept l.one_block;
          block_at = rw kept l.block_at;
          holds = rw stored h;
        },
      )

  -- Another inode is taken.
  pub Listing-taken :
      (k : ℕ) (n : Inode) (d' : Bytes)
      → IsInodeId here
      → here ≢ k + 1
      → InodeTaken d k n d'
      → Listing d here b files z
      → Listing d' here b files z
  Listing-taken k n d' range ne t l =
      let test : (here == k + 1) ≡ false = ground arith in
      let kept : load_inode_table here d' ≡ load_inode_table here d =
        InodeTaken-inode t here range ∙ rw test refl in
      record {
        fits = rw kept l.fits;
        one_block = rw kept l.one_block;
        block_at = rw kept l.block_at;
        holds = rw (t.same_blocks b) l.holds;
      }

-- The search of `handle_search_inode` in such a directory.
pub Listing-search :
    (fs : FileSystem) (name : List ℕ) (type : FileType) (here b : ℕ) {files : List File} {z : ℕ}
    → All (λ c. 0 < c) name
    → Listing fs.disk here b files z
    → handle_search_inode name type here searching fs
      ≡ ok (find_file name (file_type_code type) files) fs
Listing-search fs name type here b {files} text l =
    let blocks =
      take_one (load_inode_table here fs.disk).i_block b (omega (arith, l.fits.i_block.0))
        l.block_at in
    handle_search_inode_lem fs name type here text (omega (arith, l.one_block)) (
      rw (l.one_block, blocks)
        (subst (Directories fs.disk (b ∷ [])) (append-nil files)
          (block (Holds-IsDirectory l.holds) no_block)))
