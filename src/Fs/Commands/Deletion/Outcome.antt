-- ===== src/Fs/Commands/Deletion/Outcome.antt =====
-- The command `delete` of lab3/3.c in a directory of one block, for a file without blocks, from the
-- line that is typed to the image, on every branch.
use xjtu_oslab.Base.{
  ℕ, ◌+◌, ◌-◌, ◌^◌, ◌<◌, ◌≡◌, ◌≢◌, ◌⊎◌, refl, ap, ◌∙◌, sym, arith, List, [], ◌∷◌, ◌++◌, All,
  Bool-cases, inl, inr, false, true, ◌==◌, ==_iff,
}
use xjtu_oslab.Fs.Disk.{load_inode_table}
use xjtu_oslab.Fs.Disk.RoundTrip.{IsInodeId}
use xjtu_oslab.Fs.State.{ft_reg_file, FileSystem, ok, and_then}
use xjtu_oslab.Fs.Directory.{is_open}
use xjtu_oslab.Fs.Directory.Search.{File, find_file, same_text}
use xjtu_oslab.Fs.Commands.{done, not_found, already_open, look_up, remove_entry, delete}
use xjtu_oslab.Fs.Commands.Creation.{Listing, Listing-search}
use xjtu_oslab.Fs.Commands.Creation.Outcome.{chop-append}
use xjtu_oslab.Fs.Commands.Deletion.Removal.{Deleted, remove_entry-Deleted}

-- The first entry, which is a directory, is not the file.
find_file-behind :
    (name : List ℕ) (first : File) (files : List File)
    → first.kind ≢ 1
    → find_file name 1 (first ∷ files) ≡ find_file name 1 files
unfolding find_file
find_file-behind name first files ne =
    let other : (first.kind == 1) ≡ false = ground arith in
    elim (Bool-cases (same_text first.file_name name)) [
      | inl same ↦ rw (same, other) refl
      | inr differ ↦ rw differ refl
    ]

module _ (fs : FileSystem) (b : ℕ) (name : List ℕ) {first : File} {files : List File} {z : ℕ}
    (clock : (t : ℕ) → fs.clock t < 256 ^ 8) (image : (p : ℕ) → fs.disk p < 256)
    (own : IsInodeId fs.current_dir) (text : All (λ c. 0 < c) name) (dir : first.kind ≢ 1)
    (l : Listing fs.disk fs.current_dir b (first ∷ files) z) where
  look_up_behind : look_up name ft_reg_file fs ≡ ok (find_file name 1 files) fs
  unfolding look_up
  look_up_behind =
      Listing-search fs name ft_reg_file fs.current_dir b text l
      ∙ ap (λ n. ok n fs) (find_file-behind name first files dir)

  delete_missing : find_file name 1 files ≡ 0 → delete (name ++ 10 ∷ []) fs ≡ ok not_found fs
  unfolding delete
  delete_missing missing = rw (chop-append name 10, look_up_behind, and_then, missing) refl

  delete_open :
      (find_file name 1 files == 0) ≡ false
      → is_open (find_file name 1 files) fs.fopen_table ≡ true
      → delete (name ++ 10 ∷ []) fs ≡ ok already_open fs
  unfolding delete
  delete_open used now = rw (chop-append name 10, look_up_behind, and_then, used, now) refl

  delete_closed :
      (find_file name 1 files == 0) ≡ false
      → is_open (find_file name 1 files) fs.fopen_table ≡ false
      → delete (name ++ 10 ∷ []) fs ≡ remove_entry name ft_reg_file (find_file name 1 files) 0 fs
  unfolding delete
  delete_closed used now =
      rw (chop-append name 10, look_up_behind, and_then, used, now)
        (ap (λ n. remove_entry n ft_reg_file (find_file name 1 files) 0 fs) (chop-append name 10))

  -- `delete` of a name without NULs, typed with its newline, in a directory of one block whose first
  -- entry is a directory, on an image of bytes, with a clock of 64-bit values, where the regular file
  -- of that name, if there is one, is another inode without blocks. If no entry is a regular file of
  -- that name, the command answers `not_found` and changes nothing. If the file is in the table of the
  -- open files, it answers `already_open` and changes nothing. Otherwise it is done: the bit of the
  -- inode alone is cleared and its entry of the table is zeros, the group descriptor counts one more
  -- free inode and is the same elsewhere, and the list of the directory has lost the first entry of
  -- that name.
  pub delete_lem :
      (0 < find_file name 1 files
        → IsInodeId (find_file name 1 files)
          × (fs.current_dir ≢ find_file name 1 files)
          × ((load_inode_table (find_file name 1 files) fs.disk).i_blocks ≡ 0))
      → ((find_file name 1 files ≡ 0) × (delete (name ++ 10 ∷ []) fs ≡ ok not_found fs))
        ⊎ (((0 < find_file name 1 files)
              × (is_open (find_file name 1 files) fs.fopen_table ≡ true)
              × (delete (name ++ 10 ∷ []) fs ≡ ok already_open fs))
            ⊎ ((0 < find_file name 1 files)
                × (is_open (find_file name 1 files) fs.fopen_table ≡ false)
                × (fs' : FileSystem) × (delete (name ++ 10 ∷ []) fs ≡ ok done fs')
                × Deleted fs b (find_file name 1 files - 1) name first files z fs'))
  delete_lem h = elim (Bool-cases (find_file name 1 files == 0)) [
    | inl missing ↦
        let none_found : find_file name 1 files ≡ 0 =
          (==_iff (find_file name 1 files) 0).0 missing in
        inl (none_found, delete_missing none_found)
    | inr found ↦
        let there : 0 < find_file name 1 files = ground arith in
        let i = find_file name 1 files - 1 in
        let number : find_file name 1 files ≡ i + 1 = omega arith in
        let (range, ne, empty) = h there in
        elim (Bool-cases (is_open (find_file name 1 files) fs.fopen_table)) [
          | inl now ↦ inr (inl (there, now, delete_open found now))
          | inr closed ↦
              let (fs', ran, deleted) =
                remove_entry-Deleted fs b i name clock image own (rw (sym number) range)
                  (rw (sym number) ne) text there (rw (sym number) empty) l in
              inr (
                inr (
                  there,
                  closed,
                  fs',
                  delete_closed found closed
                      ∙ ap (λ n. remove_entry name ft_reg_file n 0 fs) number
                      ∙ ran,
                  deleted,
                ))
        ]
  ]
