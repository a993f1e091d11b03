-- ===== src/Fs/Commands/Creation/Outcome.antt =====
-- The command `create` of lab3/3.c in a directory of one block, from the line that is typed to the
-- image, on every branch.
use xjtu_oslab.Base.{
  ℕ, ◌+◌, ◌-◌, ◌^◌, ◌%◌, ◌≤◌, ◌<◌, ◌≡◌, ◌≢◌, ◌⊎◌, refl, ap, ◌∙◌, arith, List, [], ◌∷◌, ◌++◌, All,
  Bool-cases, inl, inr, false, true, ◌==◌, ==_iff, length,
}
use xjtu_oslab.Fs.Bytes.{Bytes}
use xjtu_oslab.Fs.Bitmap.Claim.{bit_at}
use xjtu_oslab.Fs.Disk.{
  Inode, load_group_desc, load_inode_table, update_inode_table, load_inode_bitmap,
}
use xjtu_oslab.Fs.Disk.RoundTrip.{InodeFits, IsInodeId}
use xjtu_oslab.Fs.Disk.Frame.{load-update_inode_table}
use xjtu_oslab.Fs.State.{ft_reg_file, FileSystem, ok, undefined, and_then}
use xjtu_oslab.Fs.Directory.Search.{File, find_file}
use xjtu_oslab.Fs.Directory.Insert.{Inserted, init_dir_entry-IsNew}
use xjtu_oslab.Fs.Directory.RoundTrip.{find_file-Inserted, Holds-in_use}
use xjtu_oslab.Fs.Space.{new_inode}
use xjtu_oslab.Fs.Space.Block.{IsCounted}
use xjtu_oslab.Fs.Space.Entry.{InodeTaken, fresh, fresh-InodeFits, new_inode_lem}
use xjtu_oslab.Fs.Walk.{handle_search_inode, searching}
use xjtu_oslab.Fs.Setup.{chop}
use xjtu_oslab.Fs.Create.{handle_append_directory}
use xjtu_oslab.Fs.Commands.{done, file_exists, look_up, add_entry, create_as, create}
use xjtu_oslab.Fs.Commands.Creation.{
  Listing, Listing-own, Listing-taken, Listing-search, InodeTaken-inode,
}
use xjtu_oslab.Fs.Commands.Creation.Appending.{handle_append_directory_lem}
use xjtu_oslab.Fs.Commands.Creation.Entry.{new_dir_entry_lem, new_dir_entry-none}

pub chop-append : (name : List ℕ) (c : ℕ) → chop (name ++ c ∷ []) ≡ name
chop-append [] c = refl
chop-append (x ∷ []) c = refl
chop-append (x ∷ y ∷ name) c = ap (◌∷◌ x) (chop-append (y ∷ name) c)

-- The inode of the directory with the new size.
abbrev grown : Inode → ℕ → Inode
grown n size = record n { i_size = (n.i_size + size) % 2 ^ 32 }

grown-InodeFits : (n : Inode) (size : ℕ) → InodeFits n → InodeFits (grown n size)
grown-InodeFits n size f = record {
  i_mode = f.i_mode;
  i_blocks = f.i_blocks;
  i_size = omega arith;
  i_atime = f.i_atime;
  i_ctime = f.i_ctime;
  i_mtime = f.i_mtime;
  i_dtime = f.i_dtime;
  i_block = f.i_block;
  i_pad = f.i_pad;
}

abbrev pub new_file : List ℕ → ℕ → File
new_file name k = record { file_name = name; kind = 1; number = k + 1 }

-- Inode `k + 1`, which was free, is in use, the file of that number is in the list of the directory,
-- and the search for it finds it.
pub record Created (fs : FileSystem) (b : ℕ) (name : List ℕ) (files : List File) (fs' : FileSystem)
    : Type 0 where
  pub k : ℕ
  pub was_free : bit_at (load_inode_bitmap fs.disk) k ≡ 0
  pub now_used : bit_at (load_inode_bitmap fs'.disk) k ≡ 1
  pub files' : List File
  pub z' : ℕ
  pub inserted : Inserted (new_file name k) files files'
  pub listing : Listing fs'.disk fs.current_dir b files' z'
  pub same_dir : fs'.current_dir ≡ fs.current_dir
  pub found : handle_search_inode name ft_reg_file fs.current_dir searching fs' ≡ ok (k + 1) fs'

module _ (fs : FileSystem) (b : ℕ) (name : List ℕ) {files : List File} {z : ℕ}
    (clock : (t : ℕ) → fs.clock t < 256 ^ 8) (own : IsInodeId fs.current_dir)
    (text : All (λ c. 0 < c) name) (fit : z + 7 + length name ≤ 250)
    (l : Listing fs.disk fs.current_dir b files z) where
  -- With a new inode, behind the test.
  add_entry-Created :
      (k : ℕ) (d : Bytes)
      → fs.current_dir ≢ k + 1
      → find_file name 1 files ≡ 0
      → new_inode fs ≡ ok (k + 1) (record fs { disk = d; asked = fs.asked + 1 + 1 + 1 })
      → InodeTaken fs.disk k (fresh fs.clock fs.asked) d
      → (fs' : FileSystem) × (add_entry name ft_reg_file fs ≡ ok done fs')
        × Created fs b name files fs'
  unfolding add_entry
  add_entry-Created k d ne none_found taken t =
      let fs1 : FileSystem = record fs { disk = d; asked = fs.asked + 1 + 1 + 1 } in
      let here = fs.current_dir in
      let range : IsInodeId (k + 1) = omega (arith, t.in_range) in
      let file = new_file name k in
      let (e, made, new) =
        init_dir_entry-IsNew ft_reg_file file refl text (omega arith) (omega (arith, t.in_range))
          (omega (arith, fit)) in
      let test : (k + 1 == k + 1) ≡ true = ground arith in
      let stored : load_inode_table (k + 1) d ≡ fresh fs.clock fs.asked =
        InodeTaken-inode t (k + 1) range ∙ rw test refl in
      let same : (k == k) ≡ true = ground arith in
      let marked : bit_at (load_inode_bitmap d) k ≡ 1 = t.claimed.bits k ∙ rw same refl in
      let l1 = Listing-taken k (fresh fs.clock fs.asked) d own ne t l in
      let (d2, entered, finished) =
        new_dir_entry_lem fs fs1 name (k + 1) e here b taken made new.numbered
          (rw stored (fresh-InodeFits fs.clock fs.asked clock)) range own ne l1 in
      let n : Inode = grown (load_inode_table here d2) (7 + length name) in
      let fits =
        grown-InodeFits (load_inode_table here d2) (7 + length name) finished.listing.fits in
      let d3 : Bytes = update_inode_table n here d2 in
      let (_, l3) =
        Listing-own n fits own finished.listing.one_block finished.listing.block_at
          finished.listing in
      let (_, _, _, bitmap3, _) = load-update_inode_table d2 n here here b fits own own in
      let fs3 : FileSystem = record fs1 { disk = d3 } in
      let r =
        handle_append_directory_lem fs3 here b ft_reg_file file e clock own refl text (omega arith)
          (omega (arith, t.in_range)) fit made l3 in
      let fs' : FileSystem = record fs3 { disk = r.disk'; asked = fs3.asked + 1 + 1 } in
      (
        fs',
        rw (entered, and_then, r.ran) refl,
        record {
          k = k;
          was_free = t.claimed.was_clear;
          now_used = rw (r.same_bitmap, bitmap3, finished.same_bitmap) marked;
          files' = r.files';
          z' = r.z';
          inserted = r.inserted;
          listing = r.listing;
          same_dir = refl;
          found =
              Listing-search fs' name ft_reg_file here b text r.listing
              ∙ ap (λ m. ok m fs')
                  (find_file-Inserted file r.inserted (Holds-in_use l.holds) none_found);
        },
      )

  -- Without one.
  add_entry-undefined : new_inode fs ≡ ok 0 fs → add_entry name ft_reg_file fs ≡ undefined
  unfolding add_entry handle_append_directory
  add_entry-undefined full = rw (new_dir_entry-none fs name full, and_then) refl

  look_up_lem : look_up name ft_reg_file fs ≡ ok (find_file name 1 files) fs
  unfolding look_up
  look_up_lem = Listing-search fs name ft_reg_file fs.current_dir b text l

  create_exists :
      (find_file name 1 files == 0) ≡ false → create (name ++ 10 ∷ []) fs ≡ ok file_exists fs
  unfolding create create_as
  create_exists there = rw (chop-append name 10, look_up_lem, and_then, there) refl

  create_new :
      (find_file name 1 files == 0) ≡ true
      → create (name ++ 10 ∷ []) fs ≡ add_entry name ft_reg_file fs
  unfolding create create_as
  create_new new =
      rw (chop-append name 10, look_up_lem, and_then, new)
        (ap (λ n. add_entry n ft_reg_file fs) (chop-append name 10))

  -- `create` of a name without NULs, typed with its newline, in a directory that is in use and has one
  -- block, whose list has room for the entry, on an image whose group descriptor counts its bitmaps,
  -- with a clock of 64-bit values. If the list has a file of that name, the command answers
  -- `file_exists` and changes nothing. If not, and no inode is free, it reads through NULL. Otherwise
  -- it is done: an inode that was free is in use, the list has the file of that number put in, and the
  -- search for the name returns that number.
  pub create_lem :
      IsCounted fs.disk
      → bit_at (load_inode_bitmap fs.disk) (fs.current_dir - 1) ≡ 1
      → ((0 < find_file name 1 files) × (create (name ++ 10 ∷ []) fs ≡ ok file_exists fs))
        ⊎ (((find_file name 1 files ≡ 0)
              × ((load_group_desc fs.disk).bg_free_inodes_count ≡ 0)
              × (create (name ++ 10 ∷ []) fs ≡ undefined))
            ⊎ ((find_file name 1 files ≡ 0)
                × (0 < (load_group_desc fs.disk).bg_free_inodes_count)
                × (fs' : FileSystem) × (create (name ++ 10 ∷ []) fs ≡ ok done fs')
                × Created fs b name files fs'))
  create_lem counted in_use = elim (Bool-cases (find_file name 1 files == 0)) [
    | inr there ↦ inl (ground arith, create_exists there)
    | inl new ↦
        let none_found : find_file name 1 files ≡ 0 = (==_iff (find_file name 1 files) 0).0 new in
        elim (new_inode_lem fs counted clock) [
          | inl (full, ran) ↦ inr (inl (none_found, full, create_new new ∙ add_entry-undefined ran))
          | inr (k, d, taken, free, t) ↦
              let ne : fs.current_dir ≢ k + 1 = λ e. absurd (
                omega (
                  arith,
                  in_use,
                  t.claimed.was_clear,
                  ap (bit_at (load_inode_bitmap fs.disk)) {x = fs.current_dir - 1} {y = k}
                      (omega (arith, e)),
                )) in
              let (fs', ran, created) = add_entry-Created k d ne none_found taken t in
              inr (inr (none_found, free, fs', create_new new ∙ ran, created))
        ]
  ]
