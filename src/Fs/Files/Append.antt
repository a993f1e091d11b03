-- ===== src/Fs/Files/Append.antt =====
-- What `try_write` of lab3/3.c does to the text of a block.
use xjtu_oslab.Fs.State.{and_then}
use xjtu_oslab.Fs.State.{lift}
use xjtu_oslab.Base.{
  ℕ, zero, suc, ◌+◌, ◌-◌, ◌≤◌, ◌≡◌, ◌≢◌, ◌<◌, refl, arith, List, [], ◌∷◌, ◌++◌, some, false, ◌==◌,
  length, length-append, length-take, All, le→leb, ap, ◌∙◌, sym, take, Bool-cases, inl, inr,
}
use xjtu_oslab.Fs.Bytes.{front, behind}
use xjtu_oslab.Fs.Bytes.Laws.{front-append}
use xjtu_oslab.Fs.Bytes.Range.{length-front, length-behind}
use xjtu_oslab.Fs.Disk.{load_block_entry, update_block_entry}
use xjtu_oslab.Fs.Disk.RoundTrip.{update_block_entry_lem}
use xjtu_oslab.Fs.State.{FileSystem, ok}
use xjtu_oslab.Fs.Directory.{string_of, put}
use xjtu_oslab.Fs.Directory.Search.{length-load_block_entry}
use xjtu_oslab.Fs.Files.{try_write}

string_of-append :
    (t bs : List ℕ) {s : List ℕ}
    → All (λ b. 0 < b) t
    → string_of bs ≡ some s
    → string_of (t ++ bs) ≡ some (t ++ s)
unfolding string_of
string_of-append [] bs h e = e
string_of-append (x ∷ t) bs h e =
    let used : (x == 0) ≡ false = ground (arith, h.0) in
    rw (string_of, used, string_of-append t bs h.1 e) refl

string_of-stop : (t bs : List ℕ) → All (λ b. 0 < b) t → string_of ((t ++ 0 ∷ []) ++ bs) ≡ some t
unfolding string_of
string_of-stop [] bs h = refl
string_of-stop (x ∷ t) bs h =
    let used : (x == 0) ≡ false = ground (arith, h.0) in
    rw (string_of, used, string_of-stop t bs h.1) refl

take-All : (n : ℕ) (t : List ℕ) → All (λ b. 0 < b) t → All (λ b. 0 < b) (take n t)
take-All zero t h = tt
take-All (suc n) [] h = tt
take-All (suc n) (x ∷ t) h = (h.0, take-All n t h.1)

append-none : (t : List ℕ) → t ++ [] ≡ t
append-none [] = refl
append-none (x ∷ t) = ap (◌∷◌ x) (append-none t)

-- On a block that holds a text, ended by a NUL, `try_write` of data without NULs is defined. It returns
-- the room that the text leaves of 511 bytes; the text of the block is then the old one with as much
-- of the data behind it as fits that room, and every other block is as it was.
pub try_write_lem :
    (fs : FileSystem) (index : ℕ) (text rest more : List ℕ)
    → load_block_entry index fs.disk ≡ text ++ 0 ∷ rest
    → All (λ b. 0 < b) text
    → All (λ b. 0 < b) more
    → (fs' : FileSystem) × (try_write index more fs ≡ ok (511 - length text) fs')
      × (string_of (load_block_entry index fs'.disk) ≡ some (text ++ take (511 - length text) more))
      × ((b : ℕ) → b ≢ index → load_block_entry b fs'.disk ≡ load_block_entry b fs.disk)
unfolding try_write put
try_write_lem fs index text rest more holds used used' = elim (Bool-cases (length text == 511)) [
  | inl full ↦
      let none_left : 511 - length text ≡ 0 = ground (arith, full) in
      (
        fs,
        rw (try_write, old, lift, and_then, full, none_left) refl,
        old ∙ ap some (sym (ap (λ (n : ℕ). text ++ take n more) none_left ∙ append-none text)),
        λ b ne. refl,
      )
  | inr room ↦
      let (same, apart, _, _, _, _) = update_block_entry_lem fs.disk block' index size' in
      (
        record fs { disk = update_block_entry block' index fs.disk },
        rw
            (
              try_write,
              old,
              lift,
              and_then,
              room,
              le→leb (length text + length stored) (length block) inside,
            )
            refl,
        rw same new,
        apart,
      )
]
  where
    block : List ℕ
    block = load_block_entry index fs.disk

    size : length block ≡ 512
    size = length-load_block_entry index fs.disk

    fits : length text ≤ 511
    fits = omega (arith, size, ap {A = List ℕ} {B = ℕ} length holds, length-append text (0 ∷ rest))

    old : string_of block ≡ some text
    old =
        ap string_of holds
        ∙ string_of-append text (0 ∷ rest) used (string_of-stop [] rest tt)
        ∙ ap some (append-none text)

    part : List ℕ
    part = take (511 - length text) more

    stored : List ℕ
    stored = part ++ 0 ∷ []

    inside : length text + length stored ≤ length block
    inside =
        omega (arith, size, fits, length-append part (0 ∷ []), length-take (511 - length text) more)

    block' : List ℕ
    block' = front (length text) block ++ (stored ++ behind (length text + length stored) block)

    size' : length block' ≡ 512
    size' = omega (
      arith,
      inside,
      size,
      length-append (front (length text) block)
          (stored ++ behind (length text + length stored) block),
      length-append stored (behind (length text + length stored) block),
      length-front (length text) block (omega (arith, inside)),
      length-behind (length text + length stored) block,
    )

    begins : front (length text) block ≡ text
    begins = ap (front (length text)) holds ∙ front-append (length text) text (0 ∷ rest) refl

    new : string_of block' ≡ some (text ++ part)
    new =
        ap (λ (l : List ℕ). string_of (l ++ (stored ++ behind (length text + length stored) block)))
          begins
        ∙ string_of-append text _ used
            (string_of-stop part _ (take-All (511 - length text) more used'))
