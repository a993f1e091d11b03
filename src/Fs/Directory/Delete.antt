-- ===== src/Fs/Directory/Delete.antt =====
-- `delete_dir_entry` of lab3/3.c on a block that holds a list of files.
use xjtu_oslab.Fs.Directory.Agreement.{next-Agree}
use mathlib.Core.Path.{subst}
use xjtu_oslab.Base.{
  sym, ℕ, zero, suc, ◌+◌, ◌%◌, ◌≤◌, ◌<◌, ◌≡◌, refl, arith, List, [], ◌∷◌, Option, none, some, Bool,
  true, false, ◌==◌, ◌&&◌, if◌then◌else◌, length, All, Bool-cases, inl, inr, ap, ◌∙◌, ◌⊎◌,
}
use xjtu_oslab.Fs.Bytes.{to_le, from_le}
use xjtu_oslab.Fs.Bytes.Laws.{from_le-to_le, length-to_le}
use xjtu_oslab.Fs.Bytes.Slices.{slice}
use xjtu_oslab.Fs.Disk.{load_block_entry, update_block_entry}
use xjtu_oslab.Fs.State.{FileType, file_type_code, FileSystem, ok}
use xjtu_oslab.Fs.Directory.{
  DirEntry, advance, word_at, unlink_entry, delete_entry, delete_from, delete_dir_entry, loop_fuel,
}
use xjtu_oslab.Fs.Directory.Search.{
  File, find_file, same_text, is_entry_lem, length-load_block_entry,
}
use xjtu_oslab.Fs.Directory.Entries.{
  Holds-inside, Stored, Holds, end, next, Stored-entry, Free-entry,
}
use xjtu_oslab.Fs.Directory.Agreement.{
  Agree, Agree-narrow, Agree-trans, Stored-Agree, Holds-Agree, put-Written, Written-Agree,
}

abbrev pub is_file : List ℕ → ℕ → File → Bool
is_file name kind f = same_text f.file_name name && (f.kind == kind)

-- The files without the first one of that name and kind.
abbrev pub without_file : List ℕ → ℕ → List File → List File
without_file name kind [] = []
without_file name kind (f ∷ files) =
    if is_file name kind f then files else f ∷ without_file name kind files

module _ {block : List ℕ} {i rt ru z : ℕ} {t u : File} {files : List File} where
  -- The entry behind `t` leaves, and its room goes to `t`.
  unlink_lem :
      (temp follow : DirEntry)
      → temp.rec_len ≡ rt
      → follow.rec_len ≡ ru
      → length block ≡ 512
      → Stored block i t rt
      → Stored block (i + rt) u ru
      → Holds block (i + rt + ru) files z
      → (block' : List ℕ) × (unlink_entry block i temp follow ≡ some block')
        × Holds block' i (t ∷ files) z
        × Agree block block' 0 i
  unfolding unlink_entry word_at from_le
  unlink_lem temp follow et eu size s s2 h =
      let (b1, e1, w1) =
        put-Written block (i + temp.rec_len) (to_le 2 0)
          (omega (arith, s2.inside, et, length-to_le 2 0)) in
      let v = word_at b1 (i + 2) + follow.rec_len in
      let (b2, e2, w2) =
        put-Written b1 (i + 2) (to_le 2 v)
          (omega (arith, s2.inside, w1.same_length, length-to_le 2 v)) in
      let two = length-to_le 2 0 in
      let two' = length-to_le 2 v in
      let first : (lo hi : ℕ) → (hi ≤ i + rt) ⊎ (i + rt + 2 ≤ lo) → Agree block b1 lo hi =
        λ lo hi k. Written-Agree lo hi w1 (ground (arith, two, et)) in
      let second : (lo hi : ℕ) → (hi ≤ i + 2) ⊎ (i + 4 ≤ lo) → Agree b1 b2 lo hi =
        λ lo hi k. Written-Agree lo hi w2 (ground (arith, two')) in
      let old : word_at b1 (i + 2) ≡ rt =
        ap from_le (
          (first (i + 2) (i + 4) (inl (omega (arith, s.fits)))).bytes (i + 2) 2 (omega arith)
            (omega arith))
        ∙ s.measured in
      let new : from_le (slice b2 (i + 2) 2) ≡ rt + ru =
        ap from_le (ap (λ (n : ℕ). slice b2 (i + 2) n) (sym two') ∙ w2.here)
        ∙ from_le-to_le 2 v (omega (arith, old, eu, s2.inside, Holds-inside h, size))
        ∙ omega (arith, old, eu) in
      (
        b2,
        rw (e1, e2) refl,
        next
            (Stored-Agree s
              (Agree-trans (first i (i + 2) (inl (omega (arith, s.fits))))
                (second i (i + 2) (inl (omega arith))))
              (Agree-trans
                (first (i + 4) (i + (7 + length t.file_name)) (inl (omega (arith, s.fits))))
                (second (i + 4) (i + (7 + length t.file_name)) (inr (omega arith))))
              new (omega (arith, s.fits)))
            (subst (λ (k : ℕ). Holds b2 k files z) (omega arith)
              (Holds-Agree h
                (Agree-trans (first (i + rt + ru) 512 (inr (omega (arith, s2.fits))))
                  (second (i + rt + ru) 512 (inr (omega (arith, s.fits)))))
                size)),
        Agree-trans (first 0 i (inl (omega arith))) (second 0 i (inl (omega arith))),
      )

-- What the loop of `delete_dir_entry` does, by its result.
abbrev Outcome : List ℕ → ℕ → List ℕ → ℕ → File → List File → ℕ → Option (List ℕ) → Type 0
Outcome name kind block i t files z none = find_file name kind files ≡ 0
Outcome name kind block i t files z (some block') =
    (0 < find_file name kind files)
    × Holds block' i (t ∷ without_file name kind files) z
    × Agree block block' 0 i

Outcome-next :
    (name : List ℕ) (kind z : ℕ) {i rt : ℕ} {block : List ℕ} {t : File} (f : File)
    (files : List File) (r : Option (List ℕ))
    → is_file name kind f ≡ false
    → Stored block i t rt
    → Outcome name kind block (i + rt) f files z r
    → Outcome name kind block i t (f ∷ files) z r
unfolding find_file
Outcome-next name kind z f files none other s out = rw other out
Outcome-next name kind z {i} {rt} f files (some block') other s (found, holds, agree) = (
  rw other found,
  next-Agree s agree (rw other holds),
  Agree-narrow 0 i agree (omega arith) (omega arith),
)

-- The two ways out of the loop's body, where the next entry is in use.
delete_entry-found :
    (block : List ℕ) {block' : List ℕ} (i : ℕ) (temp follow : DirEntry)
    (rest : Option (Option (List ℕ)))
    → unlink_entry block i temp follow ≡ some block'
    → delete_entry rest block i temp follow (some true) ≡ some (some block')
unfolding delete_entry
delete_entry-found block i temp follow rest e = rw (delete_entry, e) refl

module _ (name : List ℕ) (file_type : FileType) (block : List ℕ) (text : All (λ b. 0 < b) name)
    (size : length block ≡ 512) where
  delete_from_lem :
      (fuel : ℕ) {i rt z : ℕ} {t : File} {files : List File}
      → 251 ≤ fuel + i
      → Stored block i t rt
      → Holds block (i + rt) files z
      → (r : Option (List ℕ)) × (delete_from fuel block name file_type i ≡ some r)
        × Outcome name (file_type_code file_type) block i t files z r
  unfolding delete_from delete_entry find_file
  delete_from_lem zero enough s h = absurd (omega (arith, s.inside, size))
  delete_from_lem (suc fuel) {i} {rt} enough s (end free) =
      let (temp, at, _, room, _) = Stored-entry s in
      let (follow, at', zero_inode) = Free-entry free in
      (none, rw (at, room, at', zero_inode, delete_from) refl, refl)
  delete_from_lem (suc fuel) {i} {rt} {z} {t} enough s (next {room} {f} {files} s2 h) =
      let left : 251 ≤ fuel + (i + rt) = omega (arith, s.fits) in
      let (temp, at, _, et, _) = Stored-entry s in
      let (follow, at', of, eu, _) = Stored-entry s2 in
      let used : (follow.inode == 0) ≡ false = ground (arith, of.in_use) in
      let test = is_entry_lem name file_type follow f of text in
      elim (Bool-cases (is_file name (file_type_code file_type) f)) [
        | inl found ↦
            let (block', eq, holds, agree) = unlink_lem temp follow et eu size s s2 h in
            (
              some block',
              rw (at, et, at', used, delete_from, test, found)
                  (delete_entry-found block i temp follow
                    (delete_from fuel block name file_type ((i + rt) % 65536)) eq),
              (rw found s2.in_use, rw found holds, agree),
            )
        | inr other ↦
            let small : advance i temp ≡ i + rt = omega (arith, et, s2.inside, size) in
            let (r, eq, out) = delete_from_lem fuel left s2 h in
            (
              r,
              rw (at, et, at', used, delete_from, test, other, delete_entry, small) eq,
              Outcome-next name _ z f files r other s out,
            )
      ]

-- On a block that holds a list of files, an entry after another up to a free entry,
-- `delete_dir_entry` is defined. It passes over the first file, which stays whatever its name is. If
-- no other file has that name, which is without NULs, and type, it returns 0 and changes nothing.
-- Otherwise it returns 1, and the 512 bytes it stores hold the same files without the first of those,
-- in the same order, with the free entry where it was.
pub delete_dir_entry_lem :
    (fs : FileSystem) (index : ℕ) (name : List ℕ) (file_type : FileType) {first : File}
    {files : List File} {z : ℕ}
    → All (λ b. 0 < b) name
    → Holds (load_block_entry index fs.disk) 0 (first ∷ files) z
    → ((find_file name (file_type_code file_type) files ≡ 0)
        × (delete_dir_entry name file_type index fs ≡ ok 0 fs))
      ⊎ ((0 < find_file name (file_type_code file_type) files)
          × (block : List ℕ) × Holds block 0
              (first ∷ without_file name (file_type_code file_type) files)
              z
          × (length block ≡ 512)
          × (delete_dir_entry name file_type index fs
              ≡ ok 1 (record fs { disk = update_block_entry block index fs.disk })))
unfolding delete_dir_entry
delete_dir_entry_lem fs index name file_type {first} {files} {z} text (next {room} s h) =
    let block = load_block_entry index fs.disk in
    let (r, eq, out) =
      delete_from_lem name file_type block text (length-load_block_entry index fs.disk) loop_fuel
        (omega arith) s h in
    by_result r eq out
  where
    by_result :
        (r : Option (List ℕ))
        → delete_from loop_fuel (load_block_entry index fs.disk) name file_type 0 ≡ some r
        → Outcome name (file_type_code file_type) (load_block_entry index fs.disk) 0 first files z r
        → ((find_file name (file_type_code file_type) files ≡ 0)
            × (delete_dir_entry name file_type index fs ≡ ok 0 fs))
          ⊎ ((0 < find_file name (file_type_code file_type) files)
              × (block : List ℕ) × Holds block 0
                  (first ∷ without_file name (file_type_code file_type) files)
                  z
              × (length block ≡ 512)
              × (delete_dir_entry name file_type index fs
                  ≡ ok 1 (record fs { disk = update_block_entry block index fs.disk })))
    by_result none eq out = inl (out, rw (delete_dir_entry, eq) refl)
    by_result (some block) eq (found, holds, agree) = inr (
      found,
      block,
      holds,
      agree.same_length ∙ length-load_block_entry index fs.disk,
      rw (delete_dir_entry, eq) refl,
    )
