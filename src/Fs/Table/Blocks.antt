-- ===== src/Fs/Table/Blocks.antt =====
-- What lab3/3.c does to blocks and inodes reads and writes the image only, not the other globals.
use xjtu_oslab.Fs.State.{row}
use xjtu_oslab.Fs.Walk.{row_of}
use xjtu_oslab.Fs.Bytes.{behind}
use xjtu_oslab.Fs.State.Keeps.{Keeps-print}
use xjtu_oslab.Fs.Bytes.{Bytes}
use xjtu_oslab.Fs.Disk.{update_block_bitmap}
use xjtu_oslab.Base.{◌-◌}
use xjtu_oslab.Fs.Bytes.{write, zero_bytes}
use xjtu_oslab.Fs.Bitmap.{clear_bit}
use xjtu_oslab.Fs.Disk.{
  load_inode_bitmap, update_inode_bitmap, update_inode_table, update_group_desc, entry_of,
  inode_offset, block_offset, block_size,
}
use xjtu_oslab.Fs.Directory.{loop_fuel, delete_from, append_from, word_at, string_of}
use xjtu_oslab.Base.{ℕ, zero, suc, ◌+◌, ◌==◌, leb, List, [], length, ◌∷◌, Option, none, some}
use xjtu_oslab.Fs.Disk.{
  Inode, GroupDesc, load_group_desc, load_block_bitmap, load_block_entry, load_inode_table,
}
use xjtu_oslab.Fs.Bitmap.{claim_bit}
use xjtu_oslab.Fs.State.{FileSystem, FileType, byte}
use xjtu_oslab.Fs.State.Keeps.{
  Keeps, Post-option, Post-if, IsStable, Keeps-bind, Keeps-pure, Keeps-gets, Keeps-lift, Keeps-cond,
  Keeps-puts, Keeps-time, Keeps-stuck,
}
use xjtu_oslab.Fs.Space.{
  take_block, new_block, init_inode, take_inode, new_inode, store_bitmap, reset_inode_table,
  reset_block_entry,
}
use xjtu_oslab.Fs.Directory.{
  DirEntry, search_from, search_file_name, delete_dir_entry, append_dir_entry,
}
use xjtu_oslab.Fs.Walk.{
  SearchFunc, searching, deleting, apply_search, touch_searched, handle_search_inode, print_bytes,
  print_file_in_block, print_dir_entry, print_from, print_dir_entries_in_block, OperationFunc,
  printing, listing, resetting, apply_operation, touch_read, handle_read_inode,
}
use xjtu_oslab.Fs.Walk.Keeps.{visit_inode-Keeps}

module _ {P : FileSystem → Type 0} (stable : IsStable P) where
  take_block-Keeps : (g : GroupDesc) (r : Option (ℕ × List ℕ)) → Keeps P (take_block g r)
  unfolding take_block
  take_block-Keeps g none = record { kept = λ fs p. record { holds = tt } }
  take_block-Keeps g (some (k, bitmap)) = record {
    kept = λ fs p. record { holds = stable.on_disk fs _ p };
  }

  pub new_block-Keeps : Keeps P new_block
  unfolding new_block
  new_block-Keeps = record {
    kept = λ fs p.
        Post-if ((load_group_desc fs.disk).bg_free_blocks_count == 0) _ _ (record { holds = p })
          ((take_block-Keeps (load_group_desc fs.disk) (claim_bit (load_block_bitmap fs.disk))).kept
            fs p);
  }

  init_inode-Keeps : Keeps P init_inode
  unfolding init_inode
  init_inode-Keeps = Keeps-bind _ _ (Keeps-time stable) λ a.
      Keeps-bind _ _ (Keeps-time stable)
        λ c. Keeps-bind _ _ (Keeps-time stable) λ m. record { kept = λ fs p. record { holds = p } }

  take_inode-Keeps : (g : GroupDesc) (r : Option (ℕ × List ℕ)) → Keeps P (take_inode g r)
  unfolding take_inode
  take_inode-Keeps g none = Keeps-stuck
  take_inode-Keeps g (some (k, bitmap)) =
      Keeps-bind _ _ (Keeps-puts stable (update_inode_bitmap bitmap)) λ _.
        Keeps-bind init_inode _ init_inode-Keeps λ inode.
          Keeps-bind _ _ (Keeps-puts stable (update_inode_table inode (k + 1))) λ _.
            Keeps-bind _ _
              (Keeps-puts stable (
                update_group_desc (record g { bg_free_inodes_count = g.bg_free_inodes_count - 1 })))
              λ _. Keeps-pure (k + 1)

  pub new_inode-Keeps : Keeps P new_inode
  unfolding new_inode
  new_inode-Keeps = record {
    kept = λ fs p.
        Post-if ((load_group_desc fs.disk).bg_free_inodes_count == 0) _ _ (record { holds = p })
          ((take_inode-Keeps (load_group_desc fs.disk) (claim_bit (load_inode_bitmap fs.disk))).kept
            fs p);
  }

  store_bitmap-Keeps :
      (update : List ℕ → Bytes → Bytes) (r : Option (List ℕ)) → Keeps P (store_bitmap update r)
  unfolding store_bitmap
  store_bitmap-Keeps update none = record { kept = λ fs p. record { holds = tt } }
  store_bitmap-Keeps update (some bitmap) = Keeps-puts stable (update bitmap)

  pub reset_inode_table-Keeps : (index : ℕ) → Keeps P (reset_inode_table index)
  unfolding reset_inode_table
  reset_inode_table-Keeps index = record {
    kept = λ fs p.
        let d = write fs.disk (inode_offset index) (zero_bytes 64) in
        (store_bitmap-Keeps update_inode_bitmap
            (clear_bit (entry_of index) (load_inode_bitmap d))).kept
          (record fs { disk = d }) (stable.on_disk fs d p);
  }

  reset_block_entry-Keeps : (index : ℕ) → Keeps P (reset_block_entry index)
  unfolding reset_block_entry
  reset_block_entry-Keeps index = record {
    kept = λ fs p.
        let d = write fs.disk (block_offset index) (zero_bytes block_size) in
        (store_bitmap-Keeps update_block_bitmap (clear_bit index (load_block_bitmap d))).kept
          (record fs { disk = d }) (stable.on_disk fs d p);
  }

  search_file_name-Keeps :
      (name : List ℕ) (type : FileType) (index : ℕ) → Keeps P (search_file_name name type index)
  unfolding search_file_name
  search_file_name-Keeps name type index = record {
    kept = λ fs p.
        Post-option (search_from loop_fuel (load_block_entry index fs.disk) name type 0) _ _
          (record { holds = tt }) (λ inode. record { holds = p });
  }

  delete_dir_entry-Keeps :
      (name : List ℕ) (type : FileType) (index : ℕ) → Keeps P (delete_dir_entry name type index)
  unfolding delete_dir_entry
  delete_dir_entry-Keeps name type index = record {
    kept = λ fs p.
        Post-option (delete_from loop_fuel (load_block_entry index fs.disk) name type 0) _ _
          (record { holds = tt })
          (λ r.
            Post-option r _ _ (record { holds = p })
              (λ block. record { holds = stable.on_disk fs _ p }));
  }

  pub append_dir_entry-Keeps : (e : DirEntry) (index : ℕ) → Keeps P (append_dir_entry e index)
  unfolding append_dir_entry
  append_dir_entry-Keeps e index = record {
    kept = λ fs p.
        Post-option (append_from loop_fuel (load_block_entry index fs.disk) e 0) _ _
          (record { holds = tt })
          (λ r.
            Post-option r _ _ (record { holds = p })
              (λ both. record { holds = stable.on_disk fs _ p }));
  }

  apply_search-Keeps :
      (func : SearchFunc) (name : List ℕ) (type : FileType) (index : ℕ)
      → Keeps P (apply_search func name type index)
  unfolding apply_search
  apply_search-Keeps searching = search_file_name-Keeps
  apply_search-Keeps deleting = delete_dir_entry-Keeps

  touch_searched-Keeps :
      (func : SearchFunc) (index : ℕ) (inode : Inode) → Keeps P (touch_searched func index inode)
  unfolding touch_searched
  touch_searched-Keeps searching index inode = Keeps-pure tt
  touch_searched-Keeps deleting index inode = Keeps-bind _ _ (Keeps-time stable) λ c.
      Keeps-bind _ _ (Keeps-time stable)
        λ m. record { kept = λ fs p. record { holds = stable.on_disk fs _ p } }

  pub handle_search_inode-Keeps :
      (name : List ℕ) (type : FileType) (index : ℕ) (func : SearchFunc)
      → Keeps P (handle_search_inode name type index func)
  unfolding handle_search_inode
  handle_search_inode-Keeps name type index func =
      Keeps-bind _ _ (Keeps-gets (load_inode_table index)) λ inode.
        Keeps-bind _ _ (touch_searched-Keeps func index inode)
          λ _. visit_inode-Keeps _ (apply_search-Keeps func name type) inode inode.i_blocks 0

  print_bytes-Keeps : (bs : List ℕ) → Keeps P (print_bytes bs)
  unfolding print_bytes
  print_bytes-Keeps [] = Keeps-stuck
  print_bytes-Keeps (b ∷ bs) =
      Keeps-cond (b == 0) (Keeps-pure tt)
        (Keeps-bind _ _ (Keeps-print stable (λ fs. byte b ∷ fs.printed)) λ _. print_bytes-Keeps bs)

  print_dir_entry-Keeps : (block : List ℕ) (i : ℕ) → Keeps P (print_dir_entry block i)
  unfolding print_dir_entry
  print_dir_entry-Keeps block i =
      Keeps-bind _ _ (Keeps-gets (load_inode_table (word_at block i))) λ inode.
        Keeps-bind _ _ (Keeps-lift (string_of (behind (i + 6) block)))
          λ name. Keeps-print stable (λ fs. row (row_of block i inode name) ∷ fs.printed)

  print_from-Keeps : (fuel : ℕ) (block : List ℕ) (i : ℕ) → Keeps P (print_from fuel block i)
  unfolding print_from
  print_from-Keeps zero block i = Keeps-stuck
  print_from-Keeps (suc fuel) block i =
      Keeps-cond (leb (i + 2) (length block))
        (Keeps-cond _ (Keeps-pure tt)
          (Keeps-bind _ _ (print_dir_entry-Keeps block i) λ _. print_from-Keeps fuel block _))
        Keeps-stuck

  apply_operation-Keeps : (func : OperationFunc) (index : ℕ) → Keeps P (apply_operation func index)
  unfolding apply_operation print_file_in_block print_dir_entries_in_block
  apply_operation-Keeps printing index =
      Keeps-bind _ _ (Keeps-gets (load_block_entry index)) print_bytes-Keeps
  apply_operation-Keeps listing index =
      Keeps-bind _ _ (Keeps-gets (load_block_entry index)) λ block. print_from-Keeps 512 block 0
  apply_operation-Keeps resetting index = reset_block_entry-Keeps index

  touch_read-Keeps :
      (func : OperationFunc) (index : ℕ) (inode : Inode) → Keeps P (touch_read func index inode)
  unfolding touch_read
  touch_read-Keeps printing index inode =
      Keeps-bind _ _ (Keeps-time stable)
        λ a. record { kept = λ fs p. record { holds = stable.on_disk fs _ p } }
  touch_read-Keeps listing index inode = Keeps-pure tt
  touch_read-Keeps resetting index inode = Keeps-pure tt

  pub handle_read_inode-Keeps :
      (index : ℕ) (func : OperationFunc) → Keeps P (handle_read_inode index func)
  unfolding handle_read_inode
  handle_read_inode-Keeps index func = Keeps-bind _ _ (Keeps-gets (load_inode_table index)) λ inode.
      Keeps-bind _ _ (touch_read-Keeps func index inode) λ _.
        Keeps-bind _ _
          (visit_inode-Keeps _
            (λ b. Keeps-bind _ _ (apply_operation-Keeps func b) λ _. Keeps-pure 0) inode
            inode.i_blocks 0)
          λ _. Keeps-pure tt
