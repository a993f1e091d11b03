-- ===== src/Fs/Directory/Search.antt =====
-- `search_file_name` of lab3/3.c on a block that holds a list of files.
use xjtu_oslab.Base.{
  ℕ, zero, suc, ◌+◌, ◌≤◌, ◌<◌, ◌≡◌, refl, arith, List, [], ◌∷◌, ◌++◌, Option, some, Bool, true,
  false, ◌==◌, leb, ◌&&◌, if◌then◌else◌, length, All, Bool-cases, inl, inr, ap,
}
use xjtu_oslab.Fs.Bytes.{Bytes}
use xjtu_oslab.Fs.Bytes.Range.{length-read}
use xjtu_oslab.Fs.Disk.{block_size, load_block_entry}
use xjtu_oslab.Fs.State.{FileType, file_type_code, FileSystem, ok}
use xjtu_oslab.Fs.Directory.{
  DirEntry, entry_at, equal_string, is_entry, advance, search_entry, search_from, search_file_name,
  loop_fuel,
}

-- A file of a directory: its name, the code of its type, and its inode.
pub record File : Type 0 where
  pub file_name : List ℕ
  pub kind : ℕ
  pub number : ℕ

abbrev pub same_text : List ℕ → List ℕ → Bool
same_text [] [] = true
same_text [] (c ∷ cs) = false
same_text (b ∷ bs) [] = false
same_text (b ∷ bs) (c ∷ cs) = (b == c) && same_text bs cs

pub same_text_refl : (t : List ℕ) → same_text t t ≡ true
same_text_refl [] = refl
same_text_refl (x ∷ t) = ground (arith, same_text_refl t)

-- The inode of the first file of that name and type, or 0.
unfoldable pub find_file : List ℕ → ℕ → List File → ℕ
find_file name kind [] = 0
find_file name kind (f ∷ files) =
    if same_text f.file_name name && (f.kind == kind) then f.number else find_file name kind files

-- The entry stands for the file: its name, without NULs, has one behind it.
pub record IsEntryOf (e : DirEntry) (f : File) : Type 0 where
  pub behind_name : List ℕ
  pub named : e.name ≡ f.file_name ++ 0 ∷ behind_name
  pub text : All (λ b. 0 < b) f.file_name
  pub typed : e.file_type ≡ f.kind
  pub numbered : e.inode ≡ f.number
  pub in_use : 0 < e.inode
  pub forward : 0 < e.rec_len

-- From offset `i` on, the entries of the block, each at the end of the one before, are these files,
-- and the entry behind the last is free.
pub data IsDirectory (block : List ℕ) : ℕ → List File → Type 0 where
  last : {i : ℕ} {e : DirEntry} → entry_at block i ≡ some e → e.inode ≡ 0 → IsDirectory block i []
  entry :
      {i : ℕ} {e : DirEntry} {f : File} {files : List File}
      → entry_at block i ≡ some e
      → IsEntryOf e f
      → IsDirectory block (i + e.rec_len) files
      → IsDirectory block i (f ∷ files)

-- `strcmp` on a buffer with a NUL compares the texts.
pub equal_string_lem :
    (s behind_name name : List ℕ)
    → All (λ b. 0 < b) s
    → All (λ b. 0 < b) name
    → equal_string (s ++ 0 ∷ behind_name) name ≡ some (same_text s name)
unfolding equal_string
equal_string_lem [] behind_name [] p q = refl
equal_string_lem [] behind_name (c ∷ cs) p q = ground arith
equal_string_lem (b ∷ bs) behind_name [] p q = ground arith
equal_string_lem (b ∷ bs) behind_name (c ∷ cs) p q =
    ground (arith, equal_string_lem bs behind_name cs p.1 q.1)

pub is_entry_lem :
    (name : List ℕ) (file_type : FileType) (e : DirEntry) (f : File)
    → IsEntryOf e f
    → All (λ b. 0 < b) name
    → is_entry name file_type e
      ≡ some (same_text f.file_name name && (f.kind == file_type_code file_type))
unfolding is_entry
is_entry_lem name file_type e f h text = elim (Bool-cases (same_text f.file_name name)) [
  | inl same ↦ rw (h.named, compared, same, h.typed, is_entry) refl
  | inr other ↦ rw (h.named, compared, other, is_entry) refl
]
  where
    compared :
        equal_string (f.file_name ++ 0 ∷ h.behind_name) name ≡ some (same_text f.file_name name)
    compared = equal_string_lem f.file_name h.behind_name name h.text text

-- An entry can only be read where it lies inside the block.
entry_at-inside :
    (block : List ℕ) (i : ℕ) {e : DirEntry} → entry_at block i ≡ some e → i + 262 ≤ length block
unfolding entry_at
entry_at-inside block i h = elim (Bool-cases (leb (i + 262) (length block))) [
  | inl e ↦ ground arith
  | inr e ↦ absurd (ground arith)
]

IsDirectory-inside :
    (block : List ℕ) {i : ℕ} {files : List File}
    → IsDirectory block i files
    → i + 262 ≤ length block
IsDirectory-inside block {i} (last e _) = entry_at-inside block i e
IsDirectory-inside block {i} (entry e _ _) = entry_at-inside block i e

search_entry_lem :
    (rest : Option ℕ) (e : DirEntry) (f : File) (test : Bool) (n : ℕ)
    → e.inode ≡ f.number
    → rest ≡ some n
    → search_entry rest e (some test) ≡ some (if test then f.number else n)
unfolding search_entry
search_entry_lem rest e f true n h k = ap some h
search_entry_lem rest e f false n h k = k

-- With fuel for the offsets that are left the loop ends at the right file.
search_from_lem :
    (block name : List ℕ) (file_type : FileType) (fuel : ℕ) {i : ℕ} {files : List File}
    → length block ≡ block_size
    → All (λ b. 0 < b) name
    → 251 ≤ fuel + i
    → IsDirectory block i files
    → search_from fuel block name file_type i
      ≡ some (find_file name (file_type_code file_type) files)
unfolding search_from find_file
search_from_lem block name file_type zero size text enough d =
    absurd (omega (arith, IsDirectory-inside block d))
search_from_lem block name file_type (suc fuel) size text enough (last e free) =
    rw (e, free, search_from) refl
search_from_lem block name file_type (suc fuel) {i} size text enough
      (entry {e} {f} {files} at h d) =
    rw (at, used, search_from, is_entry_lem name file_type e f h text)
      (search_entry_lem _ e f _ _ h.numbered (
        rw small
          (search_from_lem block name file_type fuel size text (omega (arith, h.forward)) d)))
  where
    used : (e.inode == 0) ≡ false
    used = ground (arith, h.in_use)

    small : advance i e ≡ i + e.rec_len
    small = omega (arith, IsDirectory-inside block d, size)

pub length-load_block_entry :
    (index : ℕ) (d : Bytes) → length (load_block_entry index d) ≡ block_size
unfolding load_block_entry
length-load_block_entry index d = length-read d _ 512

-- Where the block holds a list of files, chained by the lengths of their entries from offset 0 to a
-- free entry, the search for a name without NULs is defined: it returns the inode of the first file
-- of that name and type, or 0 if there is none, and changes nothing.
pub search_file_name_lem :
    (fs : FileSystem) (index : ℕ) (name : List ℕ) (file_type : FileType) {files : List File}
    → All (λ b. 0 < b) name
    → IsDirectory (load_block_entry index fs.disk) 0 files
    → search_file_name name file_type index fs
      ≡ ok (find_file name (file_type_code file_type) files) fs
unfolding search_file_name
search_file_name_lem fs index name file_type {files} text d = rw (found, search_file_name) refl
  where
    found :
        search_from loop_fuel (load_block_entry index fs.disk) name file_type 0
        ≡ some (find_file name (file_type_code file_type) files)
    found =
        search_from_lem (load_block_entry index fs.disk) name file_type loop_fuel
          (length-load_block_entry index fs.disk) text (omega arith) d
