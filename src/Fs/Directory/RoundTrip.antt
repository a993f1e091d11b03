-- ===== src/Fs/Directory/RoundTrip.antt =====
-- Directory blocks of lab3/3.c: an entry that is appended is found, and deleted again it is gone.
use xjtu_oslab.Fs.Directory.Search.{same_text_refl}
use xjtu_oslab.Base.{some}
use xjtu_oslab.Base.{
  ℕ, ◌+◌, ◌≤◌, ◌<◌, ◌≡◌, refl, arith, List, ◌∷◌, true, false, length, All, Bool-cases, inl, inr, ap,
  ◌∙◌, sym,
}
use mathlib.Core.Path.{subst}
use xjtu_oslab.Fs.Disk.{load_block_entry, update_block_entry}
use xjtu_oslab.Fs.Disk.RoundTrip.{update_block_entry_lem}
use xjtu_oslab.Fs.State.{FileType, file_type_code, FileSystem, ok}
use xjtu_oslab.Fs.Directory.{
  DirEntry, append_dir_entry, search_file_name, delete_dir_entry, init_dir_entry_with_inode,
}
use xjtu_oslab.Fs.Directory.Search.{File, find_file, search_file_name_lem}
use xjtu_oslab.Fs.Directory.Entries.{Holds, end, next, Holds-IsDirectory}
use xjtu_oslab.Fs.Directory.Delete.{is_file, without_file, delete_dir_entry_lem}
use xjtu_oslab.Fs.Directory.Insert.{Inserted, alone, after, later, append_dir_entry_lem}

is_file_refl : (f : File) → is_file f.file_name f.kind f ≡ true
is_file_refl f = ground (arith, same_text_refl f.file_name)

module _ (name : List ℕ) (kind : ℕ) where
  -- Where no file is found, the first is not the one, and none is found behind it.
  not_found :
      (g : File) (files : List File)
      → 0 < g.number
      → find_file name kind (g ∷ files) ≡ 0
      → (is_file name kind g ≡ false) × (find_file name kind files ≡ 0)
  unfolding find_file
  not_found g files used none_found = elim (Bool-cases (is_file name kind g)) [
    | inl found ↦ absurd (ground (arith, found, none_found, used))
    | inr other ↦ (other, ground (arith, other, none_found))
  ]

pub Holds-in_use :
    {block : List ℕ} {i z : ℕ} {files : List File}
    → Holds block i files z
    → All (λ (g : File). 0 < g.number) files
Holds-in_use (end free) = tt
Holds-in_use (next s h) = (s.in_use, Holds-in_use h)

module _ (f : File) where
  -- A file that is put in where none of its name and type is, is the one that is found.
  pub find_file-Inserted :
      {files files' : List File}
      → Inserted f files files'
      → All (λ (g : File). 0 < g.number) files
      → find_file f.file_name f.kind files ≡ 0
      → find_file f.file_name f.kind files' ≡ f.number
  unfolding find_file
  find_file-Inserted alone used none_found = rw (is_file_refl f) refl
  find_file-Inserted (after {g} {files}) used none_found =
      rw ((not_found f.file_name f.kind g files used.0 none_found).0, is_file_refl f) refl
  find_file-Inserted (later {g} {files} more) used none_found =
      let (other, behind_it) = not_found f.file_name f.kind g files used.0 none_found in
      rw other (find_file-Inserted more used.1 behind_it)

  -- Without it, the files behind the first are what they were.
  without_file-Inserted :
      {files files' : List File}
      → Inserted f files files'
      → All (λ (g : File). 0 < g.number) files
      → find_file f.file_name f.kind files ≡ 0
      → without_file f.file_name f.kind files' ≡ files
  without_file-Inserted alone used none_found = rw (is_file_refl f) refl
  without_file-Inserted (after {g} {files}) used none_found =
      rw ((not_found f.file_name f.kind g files used.0 none_found).0, is_file_refl f) refl
  without_file-Inserted (later {g} {files} more) used none_found =
      let (other, behind_it) = not_found f.file_name f.kind g files used.0 none_found in
      rw other (ap (◌∷◌ g) (without_file-Inserted more used.1 behind_it))

-- What the deletion works on, behind the first file, has the new one in it.
record BehindFirst (f first : File) (files files' : List File) : Type 0 where
  more : List File
  same : files' ≡ first ∷ more
  found : find_file f.file_name f.kind more ≡ f.number
  back : without_file f.file_name f.kind more ≡ files

Inserted-BehindFirst :
    {f first : File} {files files' : List File}
    → Inserted f (first ∷ files) files'
    → All (λ (g : File). 0 < g.number) files
    → find_file f.file_name f.kind files ≡ 0
    → BehindFirst f first files files'
unfolding find_file
Inserted-BehindFirst {f} (after {files}) used none_found = record {
  more = f ∷ files;
  same = refl;
  found = rw (is_file_refl f) refl;
  back = rw (is_file_refl f) refl;
}
Inserted-BehindFirst {f} (later {files'} inserted) used none_found = record {
  more = files';
  same = refl;
  found = find_file-Inserted f inserted used none_found;
  back = without_file-Inserted f inserted used none_found;
}

-- Where a block's list of files has none of the name and type of a new file, the new entry is
-- appended as in `append_dir_entry_lem`, and then `search_file_name` of the name and type in the same
-- block returns the new inode number.
pub append-search_file_name :
    (fs : FileSystem) (index : ℕ) (type : FileType) (file : File) {files : List File} {z : ℕ}
    → file.kind ≡ file_type_code type
    → All (λ b. 0 < b) file.file_name
    → 0 < file.number
    → file.number < 65536
    → z + 7 + length file.file_name ≤ 250
    → Holds (load_block_entry index fs.disk) 0 files z
    → find_file file.file_name file.kind files ≡ 0
    → (e : DirEntry) × (e' : DirEntry) × (fs' : FileSystem) × (init_dir_entry_with_inode
          file.file_name type file.number
        ≡ some e)
      × (append_dir_entry e index fs ≡ ok (1, e') fs')
      × (search_file_name file.file_name type index fs' ≡ ok file.number fs')
append-search_file_name fs index type file kind text used word fit h none_found =
    let (e, e', block, files', z', made, done, inserted, holds, _, size) =
      append_dir_entry_lem fs index type file kind text used word fit h in
    let fs' : FileSystem = record fs { disk = update_block_entry block index fs.disk } in
    let stored : Holds (load_block_entry index fs'.disk) 0 files' z' =
      rw ((update_block_entry_lem fs.disk block index size).0) holds in
    (
      e,
      e',
      fs',
      made,
      done,
      search_file_name_lem fs' index file.file_name type text (Holds-IsDirectory stored)
          ∙ ap (λ (n : ℕ). ok n fs')
              (ap (λ (k : ℕ). find_file file.file_name k files') (sym kind)
                ∙ find_file-Inserted file inserted (Holds-in_use h) none_found),
    )

-- An entry that is appended and then deleted: where a block holds a list of files up to a free entry
-- that begins at offset `z`, none behind the first has the name and type of a new file, whose name is
-- without NULs and whose number is from 1 to 65535, and the room is such that `z + 7` and the length
-- of the name are at most 250, the new entry is made and appended, then `delete_dir_entry` of the name
-- and type returns 1, and the block holds the files that it held at first, in their order.
pub append-delete_dir_entry :
    (fs : FileSystem) (index : ℕ) (type : FileType) (file : File) {first : File} {files : List File}
    {z : ℕ}
    → file.kind ≡ file_type_code type
    → All (λ b. 0 < b) file.file_name
    → 0 < file.number
    → file.number < 65536
    → z + 7 + length file.file_name ≤ 250
    → Holds (load_block_entry index fs.disk) 0 (first ∷ files) z
    → find_file file.file_name file.kind files ≡ 0
    → (e : DirEntry) × (e' : DirEntry) × (fs' : FileSystem) × (block : List ℕ) × (z' : ℕ)
      × (init_dir_entry_with_inode file.file_name type file.number ≡ some e)
      × (append_dir_entry e index fs ≡ ok (1, e') fs')
      × (delete_dir_entry file.file_name type index fs'
          ≡ ok 1 (record fs' { disk = update_block_entry block index fs'.disk }))
      × Holds block 0 (first ∷ files) z'
append-delete_dir_entry fs index type file {first} {files} kind text used word fit h none_found =
    let (e, e', block, files', z', made, done, inserted, holds, _, size) =
      append_dir_entry_lem fs index type file kind text used word fit h in
    let fs' : FileSystem = record fs { disk = update_block_entry block index fs.disk } in
    let stored : Holds (load_block_entry index fs'.disk) 0 files' z' =
      rw ((update_block_entry_lem fs.disk block index size).0) holds in
    let b = Inserted-BehindFirst inserted (Holds-in_use h).1 none_found in
    let ready : Holds (load_block_entry index fs'.disk) 0 (first ∷ b.more) z' =
      subst (λ (l : List File). Holds (load_block_entry index fs'.disk) 0 l z') b.same stored in
    elim (delete_dir_entry_lem fs' index file.file_name type text ready) [
      | inl (zero_found, _) ↦ absurd (
          omega (
            arith,
            used,
            ap (λ (k : ℕ). find_file file.file_name k b.more) (sym kind),
            zero_found,
            b.found,
          ))
      | inr (_, block', holds', _, deleted) ↦ (
        e,
        e',
        fs',
        block',
        z',
        made,
        done,
        deleted,
        subst (λ (l : List File). Holds block' 0 (first ∷ l) z')
            (ap (λ (k : ℕ). without_file file.file_name k b.more) (sym kind) ∙ b.back) holds',
      )
    ]
