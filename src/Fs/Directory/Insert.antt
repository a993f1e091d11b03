-- ===== src/Fs/Directory/Insert.antt =====
-- `append_dir_entry` of lab3/3.c puts a file into the list that the block holds.
use xjtu_oslab.Base.{All, replicate, ◌++◌, ◌<◌, ap, ◌∙◌, length-append}
use xjtu_oslab.Fs.Disk.{load_block_entry, update_block_entry}
use xjtu_oslab.Fs.State.{FileType, file_type_code, FileSystem, ok}
use xjtu_oslab.Fs.Directory.{append_dir_entry, init_dir_entry_with_inode, loop_fuel}
use xjtu_oslab.Fs.Directory.Search.{length-load_block_entry}
use xjtu_oslab.Base.{length-replicate}
use mathlib.Core.Path.{subst}
use xjtu_oslab.Base.{
  ℕ, zero, suc, ◌+◌, ◌-◌, ◌≤◌, ◌≡◌, refl, arith, List, [], ◌∷◌, Option, some, true, false, ◌==◌,
  ltb, leb, length, Bool-cases, inl, inr,
}
use xjtu_oslab.Fs.Disk.{block_size}
use xjtu_oslab.Fs.Directory.{DirEntry, advance, spare_room, Appended, appended_as, append_from}
use xjtu_oslab.Fs.Directory.Search.{File}
use xjtu_oslab.Fs.Directory.Entries.{Holds-inside, Holds, end, next, Stored-entry, Free-entry}
use xjtu_oslab.Fs.Directory.Agreement.{Agree, Agree-narrow, Holds-Agree, next-Agree}
use xjtu_oslab.Fs.Directory.Append.{IsNew, end_lem}
use xjtu_oslab.Fs.Directory.Split.{split_lem}

-- `files'` is `files` with `f` put in, though not in front of a file.
pub data Inserted (f : File) : List File → List File → Type 0 where
  alone : Inserted f [] (f ∷ [])
  after : {g : File} {files : List File} → Inserted f (g ∷ files) (g ∷ f ∷ files)
  later :
      {g : File} {files files' : List File}
      → Inserted f files files'
      → Inserted f (g ∷ files) (g ∷ files')

-- What the loop of `append_dir_entry` makes of the entries from `i` on.
pub record Insertion (block : List ℕ) (i z : ℕ) (f : File) (files : List File) (r : Option Appended)
    : Type 0 where
  pub block' : List ℕ
  pub rec_len : ℕ
  pub files' : List File
  pub z' : ℕ
  pub result : r ≡ some (some (block', rec_len))
  pub inserted : Inserted f files files'
  pub holds : Holds block' i files' z'
  pub bound : z' ≤ z + 7 + length f.file_name
  pub agree : Agree block block' 0 i

module _ {block : List ℕ} (e : DirEntry) (f : File) (new : IsNew e f)
    (size : length block ≡ 512) where
  append_from_lem :
      (fuel : ℕ) {i z : ℕ} {files : List File}
      → 251 ≤ fuel + i
      → z + 7 + length f.file_name ≤ 250
      → Holds block i files z
      → Insertion block i z f files (append_from fuel block e i)
  unfolding append_from appended_as
  append_from_lem zero enough fit h = absurd (omega (arith, Holds-inside h, size))
  append_from_lem (suc fuel) {i} enough fit (end free) =
      let (temp, at, zero_inode) = Free-entry free in
      let (block', eq, s, behind_it, agree) = end_lem block i new size fit in
      let test : ltb e.rec_len (block_size - i) ≡ true = ground (arith, new.measured, fit) in
      record {
        block' = block';
        rec_len = e.rec_len;
        files' = f ∷ [];
        z' = i + (7 + length f.file_name);
        result = rw (at, zero_inode, test, eq, append_from, appended_as) refl;
        inserted = alone;
        holds = next s (end behind_it);
        bound = omega arith;
        agree = agree;
      }
  append_from_lem (suc fuel) {i} {z} enough fit (next {room} {f = t} {files} s h) =
      let left : 251 ≤ fuel + (i + room) = omega (arith, s.fits) in
      let low : i + room ≤ 250 = omega (arith, Holds-inside h, size) in
      elim (Bool-cases (leb e.rec_len (room - (7 + length t.file_name)))) [
        | inl wide ↦
            let room_for : 7 + length f.file_name + (7 + length t.file_name) ≤ room =
              ground (arith, wide, new.measured) in
            let (temp, at, of, rl, nl) = Stored-entry s in
            let (block', eq, s1, s2, agree, high) = split_lem temp nl rl new size s low room_for in
            let used : (temp.inode == 0) ≡ false = ground (arith, of.in_use) in
            let spare : spare_room temp ≡ room - (7 + length t.file_name) =
              omega (arith, rl, nl, s.fits) in
            let test : leb e.rec_len (spare_room temp) ≡ true = rw spare wide in
            record {
              block' = block';
              rec_len = spare_room temp;
              files' = t ∷ f ∷ files;
              z' = z;
              result = rw (at, used, append_from, test, eq, appended_as) refl;
              inserted = after;
              holds = next s1 (
                  next s2 (
                    subst (λ (k : ℕ). Holds block' k files z) (omega (arith, s.fits))
                      (Holds-Agree h high size)));
              bound = omega arith;
              agree = agree;
            }
        | inr narrow ↦
            let more = append_from_lem fuel left fit h in
            let (temp, at, of, rl, nl) = Stored-entry s in
            let small : advance i temp ≡ i + room = omega (arith, rl, low) in
            let used : (temp.inode == 0) ≡ false = ground (arith, of.in_use) in
            let spare : spare_room temp ≡ room - (7 + length t.file_name) =
              omega (arith, rl, nl, s.fits) in
            let test : leb e.rec_len (spare_room temp) ≡ false = rw spare narrow in
            record {
              block' = more.block';
              rec_len = more.rec_len;
              files' = t ∷ more.files';
              z' = more.z';
              result = rw (at, used, append_from, test, small) more.result;
              inserted = later more.inserted;
              holds = next-Agree s more.agree more.holds;
              bound = more.bound;
              agree = Agree-narrow 0 i more.agree (omega arith) (omega arith);
            }
      ]

-- The entry that is made for a file.
pub init_dir_entry-IsNew :
    (type : FileType) (file : File)
    → file.kind ≡ file_type_code type
    → All (λ b. 0 < b) file.file_name
    → 0 < file.number
    → file.number < 65536
    → length file.file_name ≤ 243
    → (e : DirEntry) × (init_dir_entry_with_inode file.file_name type file.number ≡ some e)
      × IsNew e file
unfolding init_dir_entry_with_inode
init_dir_entry-IsNew type file kind text used word short =
    let zeros : length {A = ℕ} (replicate (255 - length file.file_name) 0)
        ≡ 255 - length file.file_name =
      length-replicate _ _ in
    let test : ltb (length file.file_name) 255 ≡ true = ground arith in
    (
      record {
        inode = file.number;
        rec_len = 7 + length file.file_name;
        name_len = length file.file_name;
        file_type = file_type_code type;
        name = file.file_name ++ replicate (255 - length file.file_name) 0;
      },
      rw test refl,
      record {
        numbered = refl;
        measured = refl;
        lengths = rw kind refl;
        rest = replicate (252 - length file.file_name) 0;
        named = ap (λ (l : List ℕ). file.file_name ++ l) (three_zeros _ (omega arith));
        whole = omega (
          arith,
          length-append file.file_name (replicate {A = ℕ} (255 - length file.file_name) 0),
          zeros,
        );
        in_use = used;
        word = word;
        text = text;
        short = short;
      },
    )
  where
    three_zeros :
        {k : ℕ} (n : ℕ) → k ≡ suc (suc (suc n)) → replicate {A = ℕ} k 0 ≡ 0 ∷ 0 ∷ 0 ∷ replicate n 0
    three_zeros n e = ap (λ (k : ℕ). replicate {A = ℕ} k 0) e

-- On a block that holds a list of files with the free entry at `z`, the entry of a new file (of an
-- inode number from 1 to 65535 and a name without NULs) that would end at offset 250 or before, is
-- made, and `append_dir_entry` of it is defined and returns 1. The block it stores, of 512 bytes,
-- holds the same files in the same order with the new one put in, in front of none of them unless
-- the list is empty, and the free entry is at most the length of the new entry further on.
pub append_dir_entry_lem :
    (fs : FileSystem) (index : ℕ) (type : FileType) (file : File) {files : List File} {z : ℕ}
    → file.kind ≡ file_type_code type
    → All (λ b. 0 < b) file.file_name
    → 0 < file.number
    → file.number < 65536
    → z + 7 + length file.file_name ≤ 250
    → Holds (load_block_entry index fs.disk) 0 files z
    → (e : DirEntry) × (e' : DirEntry) × (block : List ℕ) × (files' : List File) × (z' : ℕ)
      × (init_dir_entry_with_inode file.file_name type file.number ≡ some e)
      × (append_dir_entry e index fs
          ≡ ok (1, e') (record fs { disk = update_block_entry block index fs.disk }))
      × Inserted file files files'
      × Holds block 0 files' z'
      × (z' ≤ z + 7 + length file.file_name)
      × (length block ≡ block_size)
unfolding append_dir_entry
append_dir_entry_lem fs index type file kind text used word fit h =
    let (e, made, new) = init_dir_entry-IsNew type file kind text used word (omega arith) in
    let size = length-load_block_entry index fs.disk in
    let r = append_from_lem e file new size loop_fuel (omega arith) fit h in
    (
      e,
      record e { rec_len = r.rec_len },
      r.block',
      r.files',
      r.z',
      made,
      rw (append_dir_entry, r.result) refl,
      r.inserted,
      r.holds,
      r.bound,
      r.agree.same_length ∙ size,
    )
