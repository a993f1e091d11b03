-- ===== src/Fs/Disk/Range.antt =====
-- What is loaded from an image of bytes fits the C types of lab3/3.c.
use xjtu_oslab.Base.{◌++◌, ℕ, ◌<◌, ◌≡◌, arith, List, length}
use xjtu_oslab.Fs.Bytes.{to_le, Bytes, behind}
use xjtu_oslab.Fs.Bytes.Range.{
  front-AreBytes, append-AreBytes, to_le-AreBytes, AreBytes, length-read, read-AreBytes,
  behind-AreBytes, length-front, length-behind, word_lt,
}
use xjtu_oslab.Fs.Disk.{GroupDesc, encode_group_desc, decode_group_desc, load_group_desc}
use xjtu_oslab.Fs.Disk.RoundTrip.{GroupDescFits}

decode_group_desc-Fits :
    (bs : List ℕ) → AreBytes bs → length bs ≡ 512 → GroupDescFits (decode_group_desc bs)
unfolding decode_group_desc
decode_group_desc-Fits bs h e = record {
  bg_volume_name = length-front 16 bs (omega arith);
  bg_block_bitmap = word_lt _ h1;
  bg_inode_bitmap = word_lt _ h2;
  bg_inode_table = word_lt _ h3;
  bg_free_blocks_count = word_lt _ h4;
  bg_free_inodes_count = word_lt _ h5;
  bg_used_dirs_count = word_lt _ h6;
  password = length-front 20 _ (omega (arith, length-behind));
  bg_pad = omega (arith, length-behind);
  texts = (front-AreBytes 16 bs h, front-AreBytes 20 _ h7, behind-AreBytes 20 _ h7);
}
  where
    h1 : AreBytes (behind 16 bs)
    h1 = behind-AreBytes 16 bs h

    h2 : AreBytes (behind 2 (behind 16 bs))
    h2 = behind-AreBytes 2 _ h1

    h3 : AreBytes (behind 2 (behind 2 (behind 16 bs)))
    h3 = behind-AreBytes 2 _ h2

    h4 : AreBytes (behind 2 (behind 2 (behind 2 (behind 16 bs))))
    h4 = behind-AreBytes 2 _ h3

    h5 : AreBytes (behind 2 (behind 2 (behind 2 (behind 2 (behind 16 bs)))))
    h5 = behind-AreBytes 2 _ h4

    h6 : AreBytes (behind 2 (behind 2 (behind 2 (behind 2 (behind 2 (behind 16 bs))))))
    h6 = behind-AreBytes 2 _ h5

    h7 : AreBytes (behind 2 (behind 2 (behind 2 (behind 2 (behind 2 (behind 2 (behind 16 bs)))))))
    h7 = behind-AreBytes 2 _ h6

-- The bytes that are stored for it.
pub encode_group_desc-AreBytes : (g : GroupDesc) → GroupDescFits g → AreBytes (encode_group_desc g)
unfolding encode_group_desc
encode_group_desc-AreBytes g f = append-AreBytes g.bg_volume_name _ f.texts.0 (
    words g.bg_block_bitmap _ (
      words g.bg_inode_bitmap _ (
        words g.bg_inode_table _ (
          words g.bg_free_blocks_count _ (
            words g.bg_free_inodes_count _ (
              words g.bg_used_dirs_count _
                (append-AreBytes g.password g.bg_pad f.texts.1 f.texts.2)))))))
  where
    words : (v : ℕ) (bs : List ℕ) → AreBytes bs → AreBytes (to_le 2 v ++ bs)
    words v bs h = append-AreBytes (to_le 2 v) bs (to_le-AreBytes 2 v) h

pub load_group_desc-Fits : (d : Bytes) → ((p : ℕ) → d p < 256) → GroupDescFits (load_group_desc d)
unfolding load_group_desc
load_group_desc-Fits d h = decode_group_desc-Fits _ (read-AreBytes d 0 512 h) (length-read d 0 512)
