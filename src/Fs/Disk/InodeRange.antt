-- ===== src/Fs/Disk/InodeRange.antt =====
-- The inodes that are loaded from an image of bytes fit the C types of lab3/3.c, and are stored as bytes.
use native.Mathlib.Nat.{pow-suc}
use xjtu_oslab.Base.{
  ◌++◌, ℕ, zero, suc, ◌^◌, ◌≤◌, ◌<◌, ◌≡◌, refl, arith, List, [], ◌∷◌, All, length, ap,
}
use xjtu_oslab.Fs.Bytes.{to_le, from_le, Bytes, front, behind, to_words, from_words}
use xjtu_oslab.Fs.Bytes.Range.{
  front-AreBytes, append-AreBytes, to_le-AreBytes, AreBytes, length-read, read-AreBytes, write-lt,
  behind-AreBytes, length-behind, word_lt,
}
use xjtu_oslab.Fs.Disk.{
  Inode, encode_inode, decode_inode, inode_offset, load_inode_table, update_inode_table,
}
use xjtu_oslab.Fs.Disk.RoundTrip.{InodeFits}

length-front_le : (k : ℕ) (bs : List ℕ) → length (front k bs) ≤ k
unfolding front
length-front_le zero bs = omega arith
length-front_le (suc k) [] = omega arith
length-front_le (suc k) (b ∷ bs) = omega (arith, length-front_le k bs)

from_le-lt : (k : ℕ) (bs : List ℕ) → AreBytes bs → length bs ≤ k → from_le bs < 256 ^ k
unfolding from_le
from_le-lt zero [] h e = omega arith
from_le-lt (suc k) [] h e = omega (arith, from_le-lt k [] tt (omega arith), pow-suc 256 k)
from_le-lt zero (b ∷ bs) h e = absurd (omega arith)
from_le-lt (suc k) (b ∷ bs) h e =
    omega (arith, from_le-lt k bs h.1 (omega arith), h.0, pow-suc 256 k)

number_lt : (k : ℕ) (bs : List ℕ) → AreBytes bs → from_le (front k bs) < 256 ^ k
number_lt k bs h = from_le-lt k (front k bs) (front-AreBytes k bs h) (length-front_le k bs)

from_words-lt : (n : ℕ) (bs : List ℕ) → AreBytes bs → All (λ w. w < 2 ^ 16) (from_words n bs)
unfolding from_words
from_words-lt zero bs h = tt
from_words-lt (suc n) bs h = (word_lt bs h, from_words-lt n (behind 2 bs) (behind-AreBytes 2 bs h))

length-from_words : (n : ℕ) (bs : List ℕ) → length (from_words n bs) ≡ n
unfolding from_words
length-from_words zero bs = refl
length-from_words (suc n) bs = ap suc (length-from_words n (behind 2 bs))

to_words-AreBytes : (ws : List ℕ) → AreBytes (to_words ws)
unfolding to_words
to_words-AreBytes [] = tt
to_words-AreBytes (w ∷ ws) =
    append-AreBytes (to_le 2 w) (to_words ws) (to_le-AreBytes 2 w) (to_words-AreBytes ws)

encode_inode-AreBytes : (n : Inode) → AreBytes n.i_pad → AreBytes (encode_inode n)
unfolding encode_inode
encode_inode-AreBytes n h = number 2 n.i_mode _ (
    number 2 n.i_blocks _ (
      number 4 n.i_size _ (
        number 8 n.i_atime _ (
          number 8 n.i_ctime _ (
            number 8 n.i_mtime _ (
              number 8 n.i_dtime _
                (append-AreBytes (to_words n.i_block) n.i_pad (to_words-AreBytes n.i_block) h)))))))
  where
    number : (k v : ℕ) (bs : List ℕ) → AreBytes bs → AreBytes (to_le k v ++ bs)
    number k v bs h = append-AreBytes (to_le k v) bs (to_le-AreBytes k v) h

module _ (bs : List ℕ) (h : AreBytes bs) (size : length bs ≡ 64) where
  decode_inode-Fits : InodeFits (decode_inode bs) × AreBytes (decode_inode bs).i_pad
  unfolding decode_inode
  decode_inode-Fits =
      let h1 = behind-AreBytes 2 bs h in
      let h2 = behind-AreBytes 2 _ h1 in
      let h3 = behind-AreBytes 4 _ h2 in
      let h4 = behind-AreBytes 8 _ h3 in
      let h5 = behind-AreBytes 8 _ h4 in
      let h6 = behind-AreBytes 8 _ h5 in
      let h7 = behind-AreBytes 8 _ h6 in
      (
        record {
          i_mode = number_lt 2 _ h;
          i_blocks = number_lt 2 _ h1;
          i_size = number_lt 4 _ h2;
          i_atime = number_lt 8 _ h3;
          i_ctime = number_lt 8 _ h4;
          i_mtime = number_lt 8 _ h5;
          i_dtime = number_lt 8 _ h6;
          i_block = (length-from_words 8 _, from_words-lt 8 _ h7);
          i_pad = omega (arith, length-behind, size);
        },
        behind-AreBytes 16 _ h7,
      )

-- What is loaded from an image of bytes.
pub load_inode_table-Fits :
    (index : ℕ) (d : Bytes) → ((p : ℕ) → d p < 256) → InodeFits (load_inode_table index d)
unfolding load_inode_table
load_inode_table-Fits index d h =
    (decode_inode-Fits _ (read-AreBytes d (inode_offset index) 64 h)
      (length-read d (inode_offset index) 64)).0

-- Storing what was loaded leaves an image of bytes.
pub load-update_inode_table-lt :
    (index : ℕ) (d : Bytes)
    → ((p : ℕ) → d p < 256)
    → (p : ℕ) → update_inode_table (load_inode_table index d) index d p < 256
unfolding update_inode_table load_inode_table
load-update_inode_table-lt index d h = write-lt d (inode_offset index) _ h (
    encode_inode-AreBytes _
      (decode_inode-Fits _ (read-AreBytes d (inode_offset index) 64 h)
        (length-read d (inode_offset index) 64)).1)
