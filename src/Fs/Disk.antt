-- ===== src/Fs/Disk.antt =====
-- lab3/3.c, lines 8 to 44 and 116 to 225: the structs on the disk image, and the functions that load
-- and store them. A struct is its bytes in declaration order; none of them has padding.
pub mod RoundTrip
pub mod Frame
pub mod Range
pub mod InodeRange
use xjtu_oslab.Base.{ℕ, ◌+◌, ◌*◌, ◌%◌, List, ◌++◌, replicate}
use xjtu_oslab.Fs.Bytes.{Bytes, write, read, to_le, from_le, front, behind, to_words, from_words}

abbrev pub data_block_count : ℕ
data_block_count = 4096

abbrev pub inode_count : ℕ
inode_count = 4096

abbrev pub block_size : ℕ
block_size = 512

abbrev pub group_desc_start : ℕ
group_desc_start = 0

abbrev pub block_bitmap_start : ℕ
block_bitmap_start = 512

abbrev pub inode_bitmap_start : ℕ
inode_bitmap_start = 1024

abbrev pub inode_table_start : ℕ
inode_table_start = 1536

abbrev pub data_block_start : ℕ
data_block_start = 263680

-- `char` arrays are lists of bytes, of the length of the array.
pub record GroupDesc : Type 0 where
  pub bg_volume_name : List ℕ
  pub bg_block_bitmap : ℕ
  pub bg_inode_bitmap : ℕ
  pub bg_inode_table : ℕ
  pub bg_free_blocks_count : ℕ
  pub bg_free_inodes_count : ℕ
  pub bg_used_dirs_count : ℕ
  pub password : List ℕ
  pub bg_pad : List ℕ

pub record Inode : Type 0 where
  pub i_mode : ℕ
  pub i_blocks : ℕ
  pub i_size : ℕ
  pub i_atime : ℕ
  pub i_ctime : ℕ
  pub i_mtime : ℕ
  pub i_dtime : ℕ
  pub i_block : List ℕ
  pub i_pad : List ℕ

unfoldable pub encode_group_desc : GroupDesc → List ℕ
encode_group_desc g =
    g.bg_volume_name
    ++ (to_le 2 g.bg_block_bitmap
        ++ (to_le 2 g.bg_inode_bitmap
            ++ (to_le 2 g.bg_inode_table
                ++ (to_le 2 g.bg_free_blocks_count
                    ++ (to_le 2 g.bg_free_inodes_count
                        ++ (to_le 2 g.bg_used_dirs_count ++ (g.password ++ g.bg_pad)))))))

unfoldable pub decode_group_desc : List ℕ → GroupDesc
decode_group_desc bs =
    let b1 = behind 16 bs in
    let b2 = behind 2 b1 in
    let b3 = behind 2 b2 in
    let b4 = behind 2 b3 in
    let b5 = behind 2 b4 in
    let b6 = behind 2 b5 in
    let b7 = behind 2 b6 in
    record {
      bg_volume_name = front 16 bs;
      bg_block_bitmap = from_le (front 2 b1);
      bg_inode_bitmap = from_le (front 2 b2);
      bg_inode_table = from_le (front 2 b3);
      bg_free_blocks_count = from_le (front 2 b4);
      bg_free_inodes_count = from_le (front 2 b5);
      bg_used_dirs_count = from_le (front 2 b6);
      password = front 20 b7;
      bg_pad = behind 20 b7;
    }

unfoldable pub encode_inode : Inode → List ℕ
encode_inode n =
    to_le 2 n.i_mode
    ++ (to_le 2 n.i_blocks
        ++ (to_le 4 n.i_size
            ++ (to_le 8 n.i_atime
                ++ (to_le 8 n.i_ctime
                    ++ (to_le 8 n.i_mtime
                        ++ (to_le 8 n.i_dtime ++ (to_words n.i_block ++ n.i_pad)))))))

unfoldable pub decode_inode : List ℕ → Inode
decode_inode bs =
    let b1 = behind 2 bs in
    let b2 = behind 2 b1 in
    let b3 = behind 4 b2 in
    let b4 = behind 8 b3 in
    let b5 = behind 8 b4 in
    let b6 = behind 8 b5 in
    let b7 = behind 8 b6 in
    record {
      i_mode = from_le (front 2 bs);
      i_blocks = from_le (front 2 b1);
      i_size = from_le (front 4 b2);
      i_atime = from_le (front 8 b3);
      i_ctime = from_le (front 8 b4);
      i_mtime = from_le (front 8 b5);
      i_dtime = from_le (front 8 b6);
      i_block = from_words 8 b7;
      i_pad = behind 16 b7;
    }

unfoldable pub update_group_desc : GroupDesc → Bytes → Bytes
update_group_desc g d = write d group_desc_start (encode_group_desc g)

unfoldable pub load_group_desc : Bytes → GroupDesc
load_group_desc d = decode_group_desc (read d group_desc_start 512)

unfoldable pub update_block_bitmap : List ℕ → Bytes → Bytes
update_block_bitmap bitmap d = write d block_bitmap_start bitmap

unfoldable pub load_block_bitmap : Bytes → List ℕ
load_block_bitmap d = read d block_bitmap_start block_size

unfoldable pub update_inode_bitmap : List ℕ → Bytes → Bytes
update_inode_bitmap bitmap d = write d inode_bitmap_start bitmap

unfoldable pub load_inode_bitmap : Bytes → List ℕ
load_inode_bitmap d = read d inode_bitmap_start block_size

-- `index--` on a `uint16_t`, and the offset of that entry of the table.
abbrev pub entry_of : ℕ → ℕ
entry_of index = (index + 65535) % 65536

unfoldable pub inode_offset : ℕ → ℕ
inode_offset index = inode_table_start + 64 * entry_of index

unfoldable pub update_inode_table : Inode → ℕ → Bytes → Bytes
unfolding inode_offset
update_inode_table inode index d = write d (inode_offset index) (encode_inode inode)

unfoldable pub load_inode_table : ℕ → Bytes → Inode
unfolding inode_offset
load_inode_table index d = decode_inode (read d (inode_offset index) 64)

unfoldable pub block_offset : ℕ → ℕ
block_offset index = data_block_start + block_size * index

unfoldable pub load_block_entry : ℕ → Bytes → List ℕ
unfolding block_offset
load_block_entry index d = read d (block_offset index) block_size

unfoldable pub update_block_entry : List ℕ → ℕ → Bytes → Bytes
unfolding block_offset
update_block_entry entry index d = write d (block_offset index) entry
