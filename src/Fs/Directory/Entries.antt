-- ===== src/Fs/Directory/Entries.antt =====
-- A directory block of lab3/3.c as a list of files, byte by byte.
use xjtu_oslab.Base.{
  ℕ, zero, suc, ◌+◌, ◌≤◌, ◌<◌, ◌≡◌, refl, arith, List, [], ◌∷◌, ◌++◌, some, length, le→leb, All, ap,
  ◌∙◌, get_or, sym,
}
use mathlib.Core.Path.{subst, ap₂}
use mathlib.Core.List.{head-eq_of_cons-eq, tail-eq_of_cons-eq}
use xjtu_oslab.Fs.Bytes.Range.{length-front, length-behind}
use xjtu_oslab.Fs.Bytes.{from_le, front, behind}
use xjtu_oslab.Fs.Bytes.Slices.{slice, front-front, slice-front, slice-behind}
use xjtu_oslab.Fs.Directory.{DirEntry, decode_dir_entry, entry_at}
use xjtu_oslab.Fs.Directory.Search.{File, IsEntryOf, IsDirectory, last, entry}

-- The bytes at `i` are the entry of the file, which `room` bytes belong to.
pub record Stored (block : List ℕ) (i : ℕ) (f : File) (room : ℕ) : Type 0 where
  pub inside : i + 262 ≤ length block
  pub numbered : from_le (slice block i 2) ≡ f.number
  pub in_use : 0 < f.number
  pub measured : from_le (slice block (i + 2) 2) ≡ room
  pub kinds : slice block (i + 4) 2 ≡ length f.file_name ∷ f.kind ∷ []
  pub named : slice block (i + 6) (length f.file_name + 1) ≡ f.file_name ++ 0 ∷ []
  pub text : All (λ b. 0 < b) f.file_name
  pub short : length f.file_name ≤ 254
  pub fits : 7 + length f.file_name ≤ room

-- The bytes at `i` are a free entry.
pub record Free (block : List ℕ) (i : ℕ) : Type 0 where
  pub inside : i + 262 ≤ length block
  pub unused : from_le (slice block i 2) ≡ 0

-- From `i` on the block holds these files, one behind the other, and the free entry is at `z`.
pub data Holds (block : List ℕ) : ℕ → List File → ℕ → Type 0 where
  end : {i : ℕ} → Free block i → Holds block i [] i
  next :
      {i room z : ℕ} {f : File} {files : List File}
      → Stored block i f room
      → Holds block (i + room) files z
      → Holds block i (f ∷ files) z

-- What `entry_at` reads, field by field.
pub record Fields (block : List ℕ) (i : ℕ) (e : DirEntry) : Type 0 where
  pub inode : e.inode ≡ from_le (slice block i 2)
  pub rec_len : e.rec_len ≡ from_le (slice block (i + 2) 2)
  pub lengths : e.name_len ∷ e.file_type ∷ [] ≡ slice block (i + 4) 2
  pub name : e.name ≡ slice block (i + 6) 255

-- Two bytes of a list that is long enough.
two_of :
    (k j : ℕ) (xs : List ℕ)
    → j ≡ suc k
    → j < length xs
    → get_or xs k 0 ∷ get_or xs j 0 ∷ [] ≡ slice xs k 2
unfolding front behind
two_of k j [] e h = absurd (omega arith)
two_of zero (suc zero) (x ∷ []) e h = absurd (omega arith)
two_of zero (suc zero) (x ∷ y ∷ xs) e h = refl
two_of zero (suc (suc j)) (x ∷ xs) e h = absurd (omega arith)
two_of k zero (x ∷ xs) e h = absurd (omega arith)
two_of (suc k) (suc j) (x ∷ xs) e h = two_of k j xs (omega arith) (omega arith)

pub entry_at-Fields :
    (block : List ℕ) (i : ℕ)
    → i + 262 ≤ length block
    → (e : DirEntry) × (entry_at block i ≡ some e) × Fields block i e
unfolding entry_at decode_dir_entry
entry_at-Fields block i h = (
  decode_dir_entry (front 262 (behind i block)),
  rw (le→leb _ _ h) refl,
  record {
    inode = ap from_le (front-front 2 262 (behind i block) (omega arith));
    rec_len = ap from_le (part 2 2 (omega arith));
    lengths =
        two_of 4 5 (front 262 (behind i block)) refl (omega (arith, whole))
        ∙ part 4 2 (omega arith);
    name = part 6 255 (omega arith);
  },
)
  where
    whole : length (front 262 (behind i block)) ≡ 262
    whole = length-front 262 (behind i block) (omega (arith, length-behind i block))

    part : (p n : ℕ) → p + n ≤ 262 → slice (front 262 (behind i block)) p n ≡ slice block (i + p) n
    part p n k = slice-front p n 262 (behind i block) k ∙ slice-behind p n i block

-- A name with its NUL stands in the buffer.
named_lem :
    (m n : ℕ) (text xs : List ℕ)
    → m ≡ length text + 1
    → m ≤ n
    → front m xs ≡ text ++ 0 ∷ []
    → (rest : List ℕ) × (front n xs ≡ text ++ 0 ∷ rest)
unfolding front
named_lem zero n text xs size h e = absurd (omega arith)
named_lem (suc m) zero text xs size h e = absurd (omega arith)
named_lem (suc m) (suc n) [] [] size h e = cc
named_lem (suc m) (suc n) (t ∷ text) [] size h e = cc
named_lem (suc m) (suc n) [] (x ∷ xs) size h e =
    (front n xs, ap (λ (b : ℕ). b ∷ front n xs) (head-eq_of_cons-eq e))
named_lem (suc m) (suc n) (t ∷ text) (x ∷ xs) size h e =
    let (rest, same) = named_lem m n text xs (omega arith) (omega arith) (tail-eq_of_cons-eq e) in
    (rest, ap₂ ◌∷◌ (head-eq_of_cons-eq e) same)

-- The entry that is read there stands for the file.
pub Stored-entry :
    {block : List ℕ} {i room : ℕ} {f : File}
    → Stored block i f room
    → (e : DirEntry) × (entry_at block i ≡ some e)
      × IsEntryOf e f
      × (e.rec_len ≡ room)
      × (e.name_len ≡ length f.file_name)
Stored-entry {block} {i} {f} s =
    let (e, at, h) = entry_at-Fields block i s.inside in
    let (rest, name) =
      named_lem (length f.file_name + 1) 255 f.file_name (behind (i + 6) block) refl
        (omega (arith, s.short)) s.named in
    let both = h.lengths ∙ s.kinds in
    (
      e,
      at,
      record {
        behind_name = rest;
        named = h.name ∙ name;
        text = s.text;
        typed = ap (λ (l : List ℕ). get_or l 1 0) both;
        numbered = h.inode ∙ s.numbered;
        in_use = omega (arith, h.inode, s.numbered, s.in_use);
        forward = omega (arith, h.rec_len, s.measured, s.fits);
      },
      h.rec_len ∙ s.measured,
      ap (λ (l : List ℕ). get_or l 0 0) both,
    )

pub Free-entry :
    {block : List ℕ} {i : ℕ}
    → Free block i
    → (e : DirEntry) × (entry_at block i ≡ some e) × (e.inode ≡ 0)
Free-entry {block} {i} s =
    let (e, at, h) = entry_at-Fields block i s.inside in (e, at, h.inode ∙ s.unused)

pub Holds-IsDirectory :
    {block : List ℕ} {i z : ℕ} {files : List File}
    → Holds block i files z
    → IsDirectory block i files
Holds-IsDirectory (end s) = let (e, at, zero_inode) = Free-entry s in last at zero_inode
Holds-IsDirectory {block} {i} {z} (next {files} s h) =
    let (e, at, of, len, _) = Stored-entry s in
    entry at of (subst (λ (k : ℕ). IsDirectory block (i + k) files) (sym len) (Holds-IsDirectory h))

pub Holds-inside :
    {block : List ℕ} {i z : ℕ} {files : List File} → Holds block i files z → i + 262 ≤ length block
Holds-inside (end s) = s.inside
Holds-inside (next s h) = s.inside
