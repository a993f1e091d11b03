-- ===== src/Fs/Space.antt =====
-- lab3/3.c, lines 191 to 205, 220 to 233, 579 to 607 and 753 to 801: taking and returning blocks and
-- inodes.
pub mod Block
pub mod Entry
pub mod Reset
use xjtu_oslab.Base.{ℕ, ◌+◌, ◌-◌, List, [], Option, none, some, ◌==◌, if◌then◌else◌, replicate}
use xjtu_oslab.Fs.Bytes.{zero_bytes, Bytes, write}
use xjtu_oslab.Fs.Disk.{
  data_block_count, block_size, inode_offset, block_offset, entry_of, GroupDesc, Inode,
  load_group_desc, update_group_desc, load_block_bitmap, update_block_bitmap, load_inode_bitmap,
  update_inode_bitmap, update_inode_table,
}
use xjtu_oslab.Fs.Bitmap.{claim_bit, clear_bit}
use xjtu_oslab.Fs.State.{FileSystem, Run, ok, undefined, M, pure, ◌>>=◌, ◌>>◌, puts, time}

-- Lines 586 to 606, for the group descriptor that was loaded.
unfoldable pub take_block : GroupDesc → Option (ℕ × List ℕ) → M ℕ
take_block g none fs = undefined
take_block g (some (k, bitmap)) fs = ok k (record fs {
  disk =
      update_group_desc (record g { bg_free_blocks_count = g.bg_free_blocks_count - 1 })
        (update_block_bitmap bitmap fs.disk);
})

unfoldable pub new_block : M ℕ
new_block fs =
    let g = load_group_desc fs.disk in
    if g.bg_free_blocks_count == 0
    then ok data_block_count fs
    else take_block g (claim_bit (load_block_bitmap fs.disk)) fs

-- `FT_UNKNOWN << 8`, and the permissions `0b110`.
unfoldable pub init_inode : M Inode
init_inode = do
  atime ← time
  ctime ← time
  mtime ← time
  pure (record {
    i_mode = 0b110;
    i_blocks = 0;
    i_size = 0;
    i_atime = atime;
    i_ctime = ctime;
    i_mtime = mtime;
    i_dtime = 0;
    i_block = replicate 8 0;
    i_pad = replicate 8 0xff;
  })

-- Lines 775 to 800, for the group descriptor that was loaded.
unfoldable pub take_inode : GroupDesc → Option (ℕ × List ℕ) → M ℕ
take_inode g none = λ fs. undefined
take_inode g (some (k, bitmap)) = do
  puts (update_inode_bitmap bitmap)
  inode ← init_inode
  puts (update_inode_table inode (k + 1))
  puts (update_group_desc (record g { bg_free_inodes_count = g.bg_free_inodes_count - 1 }))
  pure (k + 1)

unfoldable pub new_inode : M ℕ
new_inode fs =
    let g = load_group_desc fs.disk in
    if g.bg_free_inodes_count == 0
    then ok 0 fs
    else take_inode g (claim_bit (load_inode_bitmap fs.disk)) fs

-- The write of the bitmap at the end of the two functions below.
unfoldable pub store_bitmap : (List ℕ → Bytes → Bytes) → Option (List ℕ) → M (Unit {0})
store_bitmap update none fs = undefined
store_bitmap update (some bitmap) fs = ok tt (record fs { disk = update bitmap fs.disk })

unfoldable pub reset_inode_table : ℕ → M (Unit {0})
reset_inode_table index fs =
    let d = write fs.disk (inode_offset index) (zero_bytes 64) in
    store_bitmap update_inode_bitmap (clear_bit (entry_of index) (load_inode_bitmap d))
      (record fs { disk = d })

unfoldable pub reset_block_entry : ℕ → M (Unit {0})
reset_block_entry index fs =
    let d = write fs.disk (block_offset index) (zero_bytes block_size) in
    store_bitmap update_block_bitmap (clear_bit index (load_block_bitmap d))
      (record fs { disk = d })
