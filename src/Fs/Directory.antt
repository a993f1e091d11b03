-- ===== src/Fs/Directory.antt =====
-- lab3/3.c, lines 47 to 53, 235 to 288, 388 to 395, 803 to 812 and 890 to 904: the entries of one
-- directory block. A name is its bytes without the NUL behind them. `none` is undefined behaviour, an
-- access outside of the block's 512 bytes, or a loop without end.
pub mod Search
pub mod Stored
pub mod Entries
pub mod Agreement
pub mod Append
pub mod Split
pub mod Insert
pub mod RoundTrip
pub mod Delete
pub mod Examples
pub mod ListExamples
use xjtu_oslab.Base.{
  ◌>>=◌, ℕ, zero, suc, ◌+◌, ◌-◌, ◌%◌, List, [], ◌∷◌, ◌++◌, Option, none, some, Bool, true, false,
  ◌==◌, ltb, leb, if◌then◌else◌, length, get_or, replicate,
}
use xjtu_oslab.Fs.Bytes.{to_le, from_le, front, behind}
use xjtu_oslab.Fs.Disk.{block_size, load_block_entry, update_block_entry}
use xjtu_oslab.Fs.State.{FileType, file_type_code, FileSystem, Run, ok, undefined, M}

pub record DirEntry : Type 0 where
  pub inode : ℕ
  pub rec_len : ℕ
  pub name_len : ℕ
  pub file_type : ℕ
  pub name : List ℕ

-- `sizeof(DirEntry)`, with a byte of padding at its end.
abbrev pub dir_entry_size : ℕ
dir_entry_size = 262

unfoldable pub decode_dir_entry : List ℕ → DirEntry
decode_dir_entry bs = record {
  inode = from_le (front 2 bs);
  rec_len = from_le (front 2 (behind 2 bs));
  name_len = get_or bs 4 0;
  file_type = get_or bs 5 0;
  name = front 255 (behind 6 bs);
}

unfoldable pub encode_dir_entry : DirEntry → List ℕ
encode_dir_entry e =
    to_le 2 e.inode ++ (to_le 2 e.rec_len ++ (e.name_len ∷ e.file_type ∷ (e.name ++ 0 ∷ [])))

-- `((DirEntry *)(block_entry + i))[0]`, which copies the whole struct.
unfoldable pub entry_at : List ℕ → ℕ → Option DirEntry
unfolding decode_dir_entry
entry_at block i =
    if leb (i + dir_entry_size) (length block)
    then some (decode_dir_entry (front dir_entry_size (behind i block)))
    else none

-- `strcmp` of a buffer and a name, as a test for equality: it reads up to the first difference.
unfoldable pub equal_string : List ℕ → List ℕ → Option Bool
equal_string [] name = none
equal_string (b ∷ bs) [] = some (b == 0)
equal_string (b ∷ bs) (c ∷ cs) = if b == c then equal_string bs cs else some false

-- `!strcmp(e.name, name) && e.file_type == file_type`
unfoldable pub is_entry : List ℕ → FileType → DirEntry → Option Bool
unfolding equal_string
is_entry name file_type e = elim (equal_string e.name name) [
  | none ↦ none
  | some true ↦ some (e.file_type == file_type_code file_type)
  | some false ↦ some false
]

-- `i += temp.rec_len` on a `uint16_t`.
abbrev pub advance : ℕ → DirEntry → ℕ
advance i temp = (i + temp.rec_len) % 65536

-- An entry can be read at 251 offsets of a block; a loop that reads more of them has no end.
abbrev pub loop_fuel : ℕ
loop_fuel = 251

-- What the loop of `search_file_name` does with the entry `temp`, `rest` being the loop from the next.
unfoldable pub search_entry : Option ℕ → DirEntry → Option Bool → Option ℕ
search_entry rest temp none = none
search_entry rest temp (some true) = some temp.inode
search_entry rest temp (some false) = rest

unfoldable pub search_from : ℕ → List ℕ → List ℕ → FileType → ℕ → Option ℕ
search_from zero block name file_type i = none
search_from (suc fuel) block name file_type i = elim (entry_at block i) [
  | none ↦ none
  | some temp ↦ elim (temp.inode == 0) [
    | true ↦ some 0
    | false ↦
        search_entry (search_from fuel block name file_type (advance i temp)) temp
          (is_entry name file_type temp)
  ]
]

unfoldable pub search_file_name : List ℕ → FileType → ℕ → M ℕ
search_file_name name file_type index fs =
    elim (search_from loop_fuel (load_block_entry index fs.disk) name file_type 0) [
      | none ↦ undefined
      | some inode ↦ ok inode fs
    ]

-- Bytes that are written into the block at an offset.
unfoldable pub put : List ℕ → ℕ → List ℕ → Option (List ℕ)
put block o bs =
    if leb (o + length bs) (length block)
    then some (front o block ++ (bs ++ behind (o + length bs) block))
    else none

unfoldable pub word_at : List ℕ → ℕ → ℕ
word_at block o = from_le (front 2 (behind o block))

-- The two assignments of `delete_dir_entry`, for the entry `temp` at `i` and the one behind it.
unfoldable pub unlink_entry : List ℕ → ℕ → DirEntry → DirEntry → Option (List ℕ)
unlink_entry block i temp next = do
  cleared ← put block (i + temp.rec_len) (to_le 2 0)
  put cleared (i + 2) (to_le 2 (word_at cleared (i + 2) + next.rec_len))

-- The block after the entry has left, or `none` inside if it is not there.
unfoldable pub delete_entry :
    Option (Option (List ℕ))
    → List ℕ
    → ℕ
    → DirEntry
    → DirEntry
    → Option Bool
    → Option (Option (List ℕ))
delete_entry rest block i temp next none = none
delete_entry rest block i temp next (some true) = elim (unlink_entry block i temp next) [
  | none ↦ none
  | some block' ↦ some (some block')
]
delete_entry rest block i temp next (some false) = rest

unfoldable pub delete_from : ℕ → List ℕ → List ℕ → FileType → ℕ → Option (Option (List ℕ))
delete_from zero block name file_type i = none
delete_from (suc fuel) block name file_type i = elim (entry_at block i) [
  | none ↦ none
  | some temp ↦ elim (entry_at block (i + temp.rec_len)) [
    | none ↦ none
    | some next ↦ elim (next.inode == 0) [
      | true ↦ some none
      | false ↦
          delete_entry (delete_from fuel block name file_type (advance i temp)) block i temp next
            (is_entry name file_type next)
    ]
  ]
]

unfoldable pub delete_dir_entry : List ℕ → FileType → ℕ → M ℕ
delete_dir_entry name file_type index fs =
    elim (delete_from loop_fuel (load_block_entry index fs.disk) name file_type 0) [
      | none ↦ undefined
      | some none ↦ ok 0 fs
      | some (some block) ↦ ok 1 (record fs { disk = update_block_entry block index fs.disk })
    ]

-- `temp.rec_len - temp.name_len - 7` as a `uint16_t`.
abbrev pub spare_room : DirEntry → ℕ
spare_room temp = (temp.rec_len + 65536 - temp.name_len - 7) % 65536

-- The name in a buffer, up to its NUL.
unfoldable pub string_of : List ℕ → Option (List ℕ)
string_of [] = none
string_of (b ∷ bs) = elim (b == 0) [
  | true ↦ some []
  | false ↦ elim (string_of bs) [ none ↦ none | some s ↦ some (b ∷ s) ]
]

-- The assignments of `append_dir_entry` where `temp`, at `i`, has room behind its name. `strcpy`
-- copies the name with its NUL.
unfoldable pub split_entry : List ℕ → ℕ → DirEntry → DirEntry → Option (List ℕ)
split_entry block i temp e = do
  let o = i + (temp.name_len + 7)
  b1 ← put block (i + 2) (to_le 2 (temp.name_len + 7))
  b2 ← put b1 o (to_le 2 e.inode)
  b3 ← put b2 (o + 2) (to_le 2 (spare_room temp))
  b4 ← put b3 (o + 4) (e.name_len ∷ e.file_type ∷ [])
  name ← string_of e.name
  put b4 (o + 6) (name ++ 0 ∷ [])

-- The result: the block and the `rec_len` that the entry has then, or `none` if it does not fit.
abbrev pub Appended : Type 0
Appended = Option (List ℕ × ℕ)

unfoldable pub appended_as : ℕ → Option (List ℕ) → Option Appended
appended_as rec_len none = none
appended_as rec_len (some block) = some (some (block, rec_len))

unfoldable pub append_from : ℕ → List ℕ → DirEntry → ℕ → Option Appended
append_from zero block e i = none
append_from (suc fuel) block e i = elim (entry_at block i) [
  | none ↦ none
  | some temp ↦ elim (temp.inode == 0) [
    | true ↦ elim (ltb e.rec_len (block_size - i)) [
      | true ↦ appended_as e.rec_len (put block i (encode_dir_entry e))
      | false ↦ some none
    ]
    | false ↦ elim (leb e.rec_len (spare_room temp)) [
      | true ↦ appended_as (spare_room temp) (split_entry block i temp e)
      | false ↦ append_from fuel block e (advance i temp)
    ]
  ]
]

-- The entry that the caller passes is changed too: the result has it.
unfoldable pub append_dir_entry : DirEntry → ℕ → M (ℕ × DirEntry)
append_dir_entry e index fs = elim (append_from loop_fuel (load_block_entry index fs.disk) e 0) [
  | none ↦ undefined
  | some none ↦ ok (0, e) fs
  | some (some (block, rec_len)) ↦
      ok (1, record e { rec_len = rec_len })
        (record fs { disk = update_block_entry block index fs.disk })
]

-- For a name of at most 254 bytes; a longer one overflows the buffer.
unfoldable pub init_dir_entry_with_inode : List ℕ → FileType → ℕ → Option DirEntry
init_dir_entry_with_inode file_name type inode_id =
    if ltb (length file_name) 255
    then some (record {
      inode = inode_id;
      rec_len = 7 + length file_name;
      name_len = length file_name;
      file_type = file_type_code type;
      name = file_name ++ replicate (255 - length file_name) 0;
    })
    else none

unfoldable pub is_open : ℕ → List ℕ → Bool
is_open inode_id [] = false
is_open inode_id (f ∷ fs) = if f == inode_id then true else is_open inode_id fs
