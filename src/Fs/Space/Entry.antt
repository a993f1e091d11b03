-- ===== src/Fs/Space/Entry.antt =====
-- What `new_inode` of lab3/3.c does to the image.
use xjtu_oslab.Base.{
  ◌⊎◌, ℕ, ◌+◌, ◌-◌, ◌^◌, ◌%◌, ◌<◌, ◌≡◌, refl, arith, List, length, ◌∙◌, Bool-cases, inl, inr, ◌==◌,
  if◌then◌else◌, replicate, ◌++◌,
}
use xjtu_oslab.Fs.Bytes.{Bytes, to_le, to_words}
use xjtu_oslab.Fs.Bytes.Range.{
  write-lt, AreBytes, length-read, read-AreBytes, append-AreBytes, to_le-AreBytes,
}
use xjtu_oslab.Fs.Disk.Range.{encode_group_desc-AreBytes, load_group_desc-Fits}
use xjtu_oslab.Fs.Disk.{
  inode_count, block_size, GroupDesc, Inode, encode_inode, load_group_desc, update_group_desc,
  load_block_bitmap, load_inode_bitmap, update_inode_bitmap, load_inode_table, update_inode_table,
  load_block_entry,
}
use xjtu_oslab.Fs.Disk.RoundTrip.{
  InodeFits, GroupDescFits, update_group_desc_lem, update_inode_bitmap_lem,
}
use xjtu_oslab.Fs.Disk.Frame.{load-update_inode_table}
use xjtu_oslab.Fs.Bitmap.Claim.{Claimed, claim_bit_lem}
use xjtu_oslab.Fs.State.{FileSystem, ok, time}
use xjtu_oslab.Fs.Space.{init_inode, take_inode, new_inode}
use xjtu_oslab.Fs.Space.Block.{IsCounted, inode_of}

-- What `init_inode` returns when the clock shows `now` and the two values after it.
abbrev pub fresh : (ℕ → ℕ) → ℕ → Inode
fresh clock now = record {
  i_mode = 0b110;
  i_blocks = 0;
  i_size = 0;
  i_atime = clock now;
  i_ctime = clock (now + 1);
  i_mtime = clock (now + 1 + 1);
  i_dtime = 0;
  i_block = replicate 8 0;
  i_pad = replicate 8 0xff;
}

-- Inode `k + 1` has been taken: its bit, the first clear one, is set, the counter is one less, and its
-- entry of the table is the inode `n`. Nothing else that is loaded from the image has changed.
pub record InodeTaken (d : Bytes) (k : ℕ) (n : Inode) (d' : Bytes) : Type 0 where
  pub in_range : k < inode_count
  pub claimed : Claimed (load_inode_bitmap d) k (load_inode_bitmap d')
  pub counted : IsCounted d'
  pub group : load_group_desc d' ≡ record (load_group_desc d) {
    bg_free_inodes_count = (load_group_desc d).bg_free_inodes_count - 1;
  }
  pub same_block_bitmap : load_block_bitmap d' ≡ load_block_bitmap d
  pub inodes :
      (e : ℕ)
      → load_inode_table (e % inode_count + 1) d'
        ≡ (if e % inode_count + 1 == k + 1 then n else load_inode_table (e % inode_count + 1) d)
  pub same_blocks : (b : ℕ) → load_block_entry b d' ≡ load_block_entry b d

pub length-load_inode_bitmap : (d : Bytes) → length (load_inode_bitmap d) ≡ block_size
unfolding load_inode_bitmap
length-load_inode_bitmap d = length-read d 1024 512

pub load_inode_bitmap-AreBytes :
    (d : Bytes) → ((p : ℕ) → d p < 256) → AreBytes (load_inode_bitmap d)
unfolding load_inode_bitmap
load_inode_bitmap-AreBytes d h = read-AreBytes d 1024 512 h

pub fresh-InodeFits :
    (clock : ℕ → ℕ) (now : ℕ) → ((t : ℕ) → clock t < 256 ^ 8) → InodeFits (fresh clock now)
fresh-InodeFits clock now h = record {
  i_mode = omega arith;
  i_blocks = omega arith;
  i_size = omega arith;
  i_atime = h now;
  i_ctime = h (now + 1);
  i_mtime = h (now + 1 + 1);
  i_dtime = omega arith;
  i_block = (refl, ground arith);
  i_pad = refl;
}

pad-AreBytes : AreBytes (to_words (replicate 8 0) ++ replicate 8 0xff)
unfolding to_words to_le
pad-AreBytes = ground arith

encode-fresh-AreBytes : (clock : ℕ → ℕ) (now : ℕ) → AreBytes (encode_inode (fresh clock now))
unfolding encode_inode
encode-fresh-AreBytes clock now = bytes 2 0b110 _ (
    bytes 2 0 _ (
      bytes 4 0 _ (
        bytes 8 (clock now) _ (
          bytes 8 (clock (now + 1)) _
            (bytes 8 (clock (now + 1 + 1)) _ (bytes 8 0 _ pad-AreBytes))))))
  where
    bytes : (k v : ℕ) (bs : List ℕ) → AreBytes bs → AreBytes (to_le k v ++ bs)
    bytes k v bs h = append-AreBytes (to_le k v) bs (to_le-AreBytes k v) h

abbrev one_less : GroupDesc → GroupDesc
one_less g = record g { bg_free_inodes_count = g.bg_free_inodes_count - 1 }

one_less-Fits : {g : GroupDesc} → GroupDescFits g → GroupDescFits (one_less g)
one_less-Fits f = record {
  bg_volume_name = f.bg_volume_name;
  bg_block_bitmap = f.bg_block_bitmap;
  bg_inode_bitmap = f.bg_inode_bitmap;
  bg_inode_table = f.bg_inode_table;
  bg_free_blocks_count = f.bg_free_blocks_count;
  bg_free_inodes_count = omega arith;
  bg_used_dirs_count = f.bg_used_dirs_count;
  password = f.password;
  bg_pad = f.bg_pad;
  texts = f.texts;
}

-- The image after `take_inode`.
abbrev taken : Bytes → List ℕ → Inode → ℕ → Bytes
taken d bitmap n k =
    update_group_desc (one_less (load_group_desc d))
      (update_inode_table n (k + 1) (update_inode_bitmap bitmap d))

module _ (d : Bytes) (k : ℕ) (bitmap : List ℕ) (clock : ℕ → ℕ) (now : ℕ) where
  taken-lt :
      ((p : ℕ) → d p < 256)
      → AreBytes bitmap
      → GroupDescFits (one_less (load_group_desc d))
      → (p : ℕ) → taken d bitmap (fresh clock now) k p < 256
  unfolding update_group_desc update_inode_table update_inode_bitmap
  taken-lt h b f =
      write-lt _ _ _ (write-lt _ _ _ (write-lt d _ bitmap h b) (encode-fresh-AreBytes clock now))
        (encode_group_desc-AreBytes _ f)

  taken-InodeTaken :
      IsCounted d
      → ((t : ℕ) → clock t < 256 ^ 8)
      → Claimed (load_inode_bitmap d) k bitmap
      → InodeTaken d k (fresh clock now) (taken d bitmap (fresh clock now) k)
  taken-InodeTaken c h claimed =
      let size : length bitmap ≡ block_size = claimed.same_length ∙ length-load_inode_bitmap d in
      let range : k < inode_count = omega (arith, claimed.inside, length-load_inode_bitmap d) in
      let fits = one_less-Fits (load_group_desc-Fits d c.bytes) in
      let d1 = update_inode_bitmap bitmap d in
      let table = λ (e b : ℕ).
        load-update_inode_table d1 (fresh clock now) (k + 1) (e % inode_count + 1) b
          (fresh-InodeFits clock now h) (omega arith) (inode_of e) in
      let (_, t2, t3, t4, _) = table 0 0 in
      let (b1, b2, b3, b4, b5) = update_inode_bitmap_lem d bitmap size in
      let (g1, g2, g3, g4, g5) =
        update_group_desc_lem (update_inode_table (fresh clock now) (k + 1) d1)
          (one_less (load_group_desc d)) fits in
      record {
        in_range = range;
        claimed = rw (g3, t4, b1) claimed;
        counted = record {
          bytes = taken-lt c.bytes claimed.bytes fits;
          blocks = rw (g1, g2, t3, b3) c.blocks;
          inodes = rw (g1, g3, t4, b1) (omega (arith, claimed.one_less, c.inodes));
        };
        group = g1;
        same_block_bitmap = g2 ∙ t3 ∙ b3;
        inodes = λ e. g4 _ (inode_of e) ∙ (table e 0).0 ∙ rw (b4 _ (inode_of e)) refl;
        same_blocks = λ b. g5 b ∙ (table 0 b).4 ∙ b5 b;
      }

-- On an image whose group descriptor counts its bitmaps, with a clock whose values fit 64 bits,
-- `new_inode` is defined. With no free inode it returns 0 and changes nothing; otherwise it returns
-- the number of the first free inode, marks it, stores a fresh inode under it whose times are the
-- next three values of the clock, and counts one less.
pub new_inode_lem :
    (fs : FileSystem)
    → IsCounted fs.disk
    → ((t : ℕ) → fs.clock t < 256 ^ 8)
    → (((load_group_desc fs.disk).bg_free_inodes_count ≡ 0) × (new_inode fs ≡ ok 0 fs))
      ⊎ ((k : ℕ) × (d : Bytes) × (new_inode fs
            ≡ ok (k + 1) (record fs { disk = d; asked = fs.asked + 1 + 1 + 1 }))
          × (0 < (load_group_desc fs.disk).bg_free_inodes_count)
          × InodeTaken fs.disk k (fresh fs.clock fs.asked) d)
unfolding new_inode take_inode init_inode time
new_inode_lem fs c h = elim (Bool-cases ((load_group_desc fs.disk).bg_free_inodes_count == 0)) [
  | inl e ↦ inl (ground arith, rw e)
  | inr e ↦
      let positive : 0 < (load_group_desc fs.disk).bg_free_inodes_count = ground arith in
      let bytes = load_inode_bitmap-AreBytes fs.disk c.bytes in
      let (k, bitmap, eq, claimed) = claim_bit_lem _ bytes (omega (arith, c.inodes)) in
      inr (
        k,
        taken fs.disk bitmap (fresh fs.clock fs.asked) k,
        rw (e, eq),
        positive,
        taken-InodeTaken fs.disk k bitmap fs.clock fs.asked c h claimed,
      )
]
