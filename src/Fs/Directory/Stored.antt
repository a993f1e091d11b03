-- ===== src/Fs/Directory/Stored.antt =====
-- The entry that `append_dir_entry` of lab3/3.c stores behind the last one of a block.
use xjtu_oslab.Base.{
  ℕ, ◌+◌, ◌≤◌, ◌<◌, ◌≡◌, refl, arith, List, [], ◌∷◌, ◌++◌, some, length, length-append, le→leb,
}
use xjtu_oslab.Fs.Bytes.{to_le, from_le, front, behind}
use xjtu_oslab.Fs.Bytes.Laws.{front-append, behind-append}
use xjtu_oslab.Fs.Bytes.Range.{length-front, length-behind}
use xjtu_oslab.Fs.Directory.{DirEntry, decode_dir_entry, encode_dir_entry, entry_at, put}

-- The fields fit their C types, and the name is the whole array.
pub record DirEntryFits (e : DirEntry) : Type 0 where
  pub inode : e.inode < 65536
  pub rec_len : e.rec_len < 65536
  pub name : length e.name ≡ 255

pub length-encode_dir_entry : (e : DirEntry) → DirEntryFits e → length (encode_dir_entry e) ≡ 262
unfolding encode_dir_entry to_le
length-encode_dir_entry e f = omega (arith, length-append e.name (0 ∷ []), f.name)

word_lem : (v : ℕ) → v < 65536 → from_le (to_le 2 v) ≡ v
unfolding from_le to_le
word_lem v h = omega arith

decode-encode_dir_entry :
    (e : DirEntry) → DirEntryFits e → decode_dir_entry (encode_dir_entry e) ≡ e
unfolding decode_dir_entry encode_dir_entry to_le from_le front behind
decode-encode_dir_entry e f =
    rw
      (
        front-append 255 e.name (0 ∷ []) f.name,
        word_lem e.inode f.inode,
        word_lem e.rec_len f.rec_len,
      )
      refl

-- A directory entry whose fields fit their types, stored at an offset where a whole entry lies inside
-- the block, is read there again; the block keeps its length, and the bytes in front of it stay.
pub put-encode_dir_entry :
    (block : List ℕ) (i : ℕ) (e : DirEntry)
    → DirEntryFits e
    → i + 262 ≤ length block
    → (block' : List ℕ) × (put block i (encode_dir_entry e) ≡ some block')
      × (entry_at block' i ≡ some e)
      × (length block' ≡ length block)
      × (front i block' ≡ front i block)
unfolding put entry_at
put-encode_dir_entry block i e f inside =
    (block', rw (size, le→leb _ _ inside), found, whole, front-append i (front i block) _ before)
  where
    size : length (encode_dir_entry e) ≡ 262
    size = length-encode_dir_entry e f

    rest : List ℕ
    rest = behind (i + 262) block

    block' : List ℕ
    block' = front i block ++ (encode_dir_entry e ++ rest)

    before : length (front i block) ≡ i
    before = length-front i block (omega arith)

    whole : length block' ≡ length block
    whole = omega (
      arith,
      length-append (front i block) (encode_dir_entry e ++ rest),
      length-append (encode_dir_entry e) rest,
      before,
      size,
      length-behind (i + 262) block,
    )

    found : entry_at block' i ≡ some e
    found =
        rw
          (
            whole,
            le→leb _ _ inside,
            behind-append i (front i block) (encode_dir_entry e ++ rest) before,
            front-append 262 (encode_dir_entry e) rest size,
            decode-encode_dir_entry e f,
          )
          refl
