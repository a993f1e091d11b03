-- ===== src/Fs/Walk/Lookup.antt =====
-- The search through the blocks of a directory, `handle_search_inode` of lab3/3.c.
use xjtu_oslab.Base.{
  ℕ, zero, suc, ◌+◌, ◌≤◌, ◌<◌, ◌≡◌, refl, arith, List, [], ◌∷◌, ◌++◌, true, ◌==◌, ltb, ◌&&◌,
  if◌then◌else◌, length, All, Bool-cases, inl, inr, ap, ◌∙◌, sym, get_or, take, drop,
}
use mathlib.Core.List.{head-eq_of_cons-eq, tail-eq_of_cons-eq}
use xjtu_oslab.Fs.Bytes.{behind}
use xjtu_oslab.Fs.Bytes.{Bytes, from_words}
use xjtu_oslab.Fs.Disk.{Inode, load_inode_table, load_block_entry, decode_inode}
use xjtu_oslab.Fs.State.{FileType, file_type_code, FileSystem, ok, M}
use xjtu_oslab.Fs.Directory.{search_file_name}
use xjtu_oslab.Fs.Directory.Search.{
  File, find_file, same_text, IsDirectory, last, entry, search_file_name_lem,
}
use xjtu_oslab.Fs.Walk.{
  first_of, visit_index, visit_inode, apply_search, touch_searched, searching, handle_search_inode,
}

-- The blocks hold these files, block after block.
pub data Directories (d : Bytes) : List ℕ → List File → Type 0 where
  no_block : Directories d [] []
  block :
      {b : ℕ} {bs : List ℕ} {files rest : List File}
      → IsDirectory (load_block_entry b d) 0 files
      → Directories d bs rest
      → Directories d (b ∷ bs) (files ++ rest)

IsDirectory-in_use :
    {block : List ℕ} {i : ℕ} {files : List File}
    → IsDirectory block i files
    → All (λ (f : File). 0 < f.number) files
IsDirectory-in_use (last at free) = tt
IsDirectory-in_use (entry at of d) = (omega (arith, of.numbered, of.in_use), IsDirectory-in_use d)

take-drop :
    (n b : ℕ) (l : List ℕ)
    → b < length l
    → take (suc n) (drop b l) ≡ get_or l b 0 ∷ take n (drop (suc b) l)
take-drop n b [] h = absurd (omega arith)
take-drop n zero (x ∷ l) h = refl
take-drop n (suc b) (x ∷ l) h = take-drop n b l (omega arith)

find_file-append :
    (name : List ℕ) (kind : ℕ) (xs ys : List File)
    → All (λ (f : File). 0 < f.number) xs
    → find_file name kind (xs ++ ys)
      ≡ (if find_file name kind xs == 0 then find_file name kind ys else find_file name kind xs)
unfolding find_file
find_file-append name kind [] ys h = refl
find_file-append name kind (f ∷ xs) ys h =
    elim (Bool-cases (same_text f.file_name name && (f.kind == kind))) [
      | inl same ↦ ground (arith, same, h.0)
      | inr other ↦ rw other (find_file-append name kind xs ys h.1)
    ]

first_of_lem :
    (r : ℕ) {m : ℕ} {fs : FileSystem} (rest : M ℕ)
    → rest fs ≡ ok m fs
    → first_of r rest fs ≡ ok (if r == 0 then m else r) fs
first_of_lem r rest e = elim (Bool-cases (r == 0)) [
  | inl zero_result ↦ rw (first_of, zero_result) e
  | inr other ↦ rw (first_of, other) refl
]

module _ (fs : FileSystem) (name : List ℕ) (type : FileType) (text : All (λ b. 0 < b) name)
    (inode : Inode) where
  visit_inode_lem :
      (n b : ℕ) {blocks : List ℕ} {files : List File}
      → b + n ≤ 6
      → b + n ≤ length inode.i_block
      → blocks ≡ take n (drop b inode.i_block)
      → Directories fs.disk blocks files
      → visit_inode (search_file_name name type) inode n b fs
        ≡ ok (find_file name (file_type_code type) files) fs
  unfolding visit_inode find_file visit_index
  visit_inode_lem zero b low inside e no_block = refl
  visit_inode_lem zero b low inside e (block is more) = cc
  visit_inode_lem (suc n) b low inside e no_block = absurd (
      omega (arith, ap {A = List ℕ} {B = ℕ} length (e ∙ take-drop n b inode.i_block (omega arith))))
  visit_inode_lem (suc n) b low inside e (block {b = k} {bs} {files} {rest} is more) =
      let test : ltb b 6 ≡ true = ground arith in
      let next = e ∙ take-drop n b inode.i_block (omega arith) in
      let here : get_or inode.i_block b 0 ≡ k = sym (head-eq_of_cons-eq next) in
      let searched = search_file_name_lem fs k name type text is in
      let behind_it =
        visit_inode_lem n (b + 1) (omega arith) (omega arith)
          (tail-eq_of_cons-eq next
            ∙ ap (λ (j : ℕ). take n (drop j inode.i_block)) {x = suc b} {y = b + 1} (omega arith))
          more in
      rw
        (
          visit_inode,
          visit_index,
          test,
          here,
          searched,
          find_file-append name (file_type_code type) files rest (IsDirectory-in_use is),
        )
        (first_of_lem (find_file name (file_type_code type) files)
          (visit_inode (search_file_name name type) inode n (b + 1)) behind_it)

length-from_words : (n : ℕ) (bs : List ℕ) → length (from_words n bs) ≡ n
unfolding from_words
length-from_words zero bs = refl
length-from_words (suc n) bs = ap suc (length-from_words n (behind 2 bs))

length-i_block : (d : Bytes) (index : ℕ) → length (load_inode_table index d).i_block ≡ 8
unfolding load_inode_table decode_inode
length-i_block d index = length-from_words 8 _

-- Where an inode has at most 6 blocks, each of which holds a list of files, `handle_search_inode` with
-- `search_file_name`, for a name without NULs and a type, is defined: it returns the inode number of
-- the first file of that name and type in all these lists, one behind the other, or 0 if there is
-- none, and changes nothing.
pub handle_search_inode_lem :
    (fs : FileSystem) (name : List ℕ) (type : FileType) (index : ℕ) {files : List File}
    → All (λ b. 0 < b) name
    → (load_inode_table index fs.disk).i_blocks ≤ 6
    → Directories fs.disk
        (take (load_inode_table index fs.disk).i_blocks (load_inode_table index fs.disk).i_block)
        files
    → handle_search_inode name type index searching fs
      ≡ ok (find_file name (file_type_code type) files) fs
unfolding handle_search_inode touch_searched apply_search
handle_search_inode_lem fs name type index text low d =
    let inode = load_inode_table index fs.disk in
    visit_inode_lem fs name type text inode inode.i_blocks 0 (omega arith)
      (omega (arith, length-i_block fs.disk index)) refl d
