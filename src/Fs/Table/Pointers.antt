-- ===== src/Fs/Table/Pointers.antt =====
-- The branches `b == 7` of lab3/3.c leave the globals besides the image alone.
use xjtu_oslab.Base.{ℕ, zero, suc, ◌+◌, ◌-◌, ◌==◌, ltb, leb, List, get_or, set}
use xjtu_oslab.Fs.Bytes.{front, behind, from_words, to_words}
use xjtu_oslab.Fs.Disk.{Inode, decode_inode, load_block_entry, update_block_entry}
use xjtu_oslab.Fs.State.{FileSystem}
use xjtu_oslab.Fs.State.Keeps.{
  Keeps, IsStable, Keeps-bind, Keeps-pure, Keeps-gets, Keeps-cond, Keeps-puts, Keeps-stuck,
}
use xjtu_oslab.Fs.Directory.{DirEntry}
use xjtu_oslab.Fs.Space.{new_block}
use xjtu_oslab.Fs.Pointers.{
  is_doubtful, append_rounds, append_inodes, append_pointers, append_indirect, write_pointers,
  write_indirect,
}
use xjtu_oslab.Fs.Table.Blocks.{new_block-Keeps, append_dir_entry-Keeps}

module _ {P : FileSystem → Type 0} (stable : IsStable P) where
  append_rounds-Keeps :
      (n sb blocks : ℕ) (e : DirEntry) (target : ℕ) → Keeps P (append_rounds n sb blocks e target)
  unfolding append_rounds
  append_rounds-Keeps zero sb blocks e target = Keeps-stuck
  append_rounds-Keeps (suc n) sb blocks e target =
      Keeps-cond (ltb sb blocks)
        (Keeps-bind _ _ (append_dir_entry-Keeps stable e target) λ r.
          Keeps-cond (r.0 == 0)
            (Keeps-cond (sb == blocks - 1)
              (Keeps-cond (blocks == 7) (Keeps-pure r.1) (
                Keeps-cond (leb 7 sb) Keeps-stuck (
                  Keeps-bind new_block _ (new_block-Keeps stable)
                    λ _. append_rounds-Keeps n (sb + 1) (blocks + 1) r.1 target)))
              (append_rounds-Keeps n (sb + 1) blocks r.1 target))
            (Keeps-pure r.1))
        (Keeps-pure e)

  append_inodes-Keeps :
      (n : ℕ) (bytes : List ℕ) (e : DirEntry) (target : ℕ)
      → Keeps P (append_inodes n bytes e target)
  unfolding append_inodes
  append_inodes-Keeps zero bytes e target =
      Keeps-cond ((decode_inode (front 64 bytes)).i_blocks == 0) (Keeps-pure e) Keeps-stuck
  append_inodes-Keeps (suc n) bytes e target =
      let blocks : ℕ = (decode_inode (front 64 bytes)).i_blocks in
      Keeps-cond (blocks == 0) (Keeps-pure e) (
        Keeps-bind _ _ (append_rounds-Keeps (blocks + 8) 0 blocks e target) λ e'.
          Keeps-cond (is_doubtful (behind 64 bytes)) Keeps-stuck
            (append_inodes-Keeps n (behind 64 bytes) e' target))

  append_pointers-Keeps :
      (n bid : ℕ) (words : List ℕ) (e : DirEntry) (target : ℕ)
      → Keeps P (append_pointers n bid words e target)
  unfolding append_pointers
  append_pointers-Keeps zero bid words e target =
      Keeps-cond (get_or words bid 0 == 0) (Keeps-pure (words, e)) Keeps-stuck
  append_pointers-Keeps (suc n) bid words e target =
      Keeps-cond (get_or words bid 0 == 0) (Keeps-pure (words, e)) (
        Keeps-bind _ _ (Keeps-gets (load_block_entry (get_or words bid 0))) λ block.
          Keeps-bind _ _ (append_inodes-Keeps 7 block e target) λ e'.
            Keeps-cond (get_or words (bid + 1) 0 == 0)
              (Keeps-cond (bid == 31) (Keeps-pure (words, e')) (
                Keeps-bind new_block _ (new_block-Keeps stable)
                  λ k. append_pointers-Keeps n (bid + 1) (set words (bid + 1) k) e' target))
              (append_pointers-Keeps n (bid + 1) words e' target))

  pub append_indirect-Keeps : (inode : Inode) (e : DirEntry) → Keeps P (append_indirect inode e)
  unfolding append_indirect
  append_indirect-Keeps inode e =
      Keeps-bind _ _ (Keeps-gets (load_block_entry (get_or inode.i_block 7 0))) λ block.
        Keeps-bind _ _
          (append_pointers-Keeps 255 0 (from_words 256 block) e (get_or inode.i_block 7 0))
          λ r.
            Keeps-bind _ _
              (Keeps-puts stable (update_block_entry (to_words r.0) (get_or inode.i_block 7 0)))
              λ _. Keeps-pure r.1

  write_pointers-Keeps : (n bid : ℕ) (words : List ℕ) → Keeps P (write_pointers n bid words)
  unfolding write_pointers
  write_pointers-Keeps zero bid words =
      Keeps-cond (get_or words bid 0 == 0) (Keeps-pure words) Keeps-stuck
  write_pointers-Keeps (suc n) bid words = Keeps-cond (get_or words bid 0 == 0) (Keeps-pure words) (
      Keeps-bind _ _ (Keeps-gets (load_block_entry (get_or words bid 0))) λ block.
        Keeps-cond (is_doubtful block) Keeps-stuck (
          Keeps-cond (get_or words (bid + 1) 0 == 0)
            (Keeps-cond (bid == 31)
              (Keeps-bind _ _ (Keeps-puts stable (update_block_entry block (get_or words bid 0)))
                λ _. Keeps-pure words)
              (Keeps-bind new_block _ (new_block-Keeps stable) λ k.
                Keeps-bind _ _ (Keeps-puts stable (update_block_entry block (get_or words bid 0)))
                  λ _. write_pointers-Keeps n (bid + 1) (set words (bid + 1) k)))
            (Keeps-bind _ _ (Keeps-puts stable (update_block_entry block (get_or words bid 0)))
              λ _. write_pointers-Keeps n (bid + 1) words)))

  pub write_indirect-Keeps : (inode : Inode) → Keeps P (write_indirect inode)
  unfolding write_indirect
  write_indirect-Keeps inode =
      Keeps-bind _ _ (Keeps-gets (load_block_entry (get_or inode.i_block 7 0))) λ block.
        Keeps-bind _ _ (write_pointers-Keeps 255 0 (from_words 256 block)) λ words.
          Keeps-puts stable (update_block_entry (to_words words) (get_or inode.i_block 7 0))
