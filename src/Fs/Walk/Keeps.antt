-- ===== src/Fs/Walk/Keeps.antt =====
-- The walks of lab3/3.c keep a predicate that their functions keep.
use xjtu_oslab.Fs.State.Keeps.{Keeps-stuck}
use xjtu_oslab.Base.{ℕ, zero, suc, ◌+◌, ◌==◌, ltb, List, [], ◌∷◌}
use xjtu_oslab.Fs.Disk.{Inode}
use xjtu_oslab.Fs.State.{FileSystem, M}
use xjtu_oslab.Fs.State.Keeps.{Keeps, Keeps-bind, Keeps-pure, Keeps-gets, Keeps-cond}
use xjtu_oslab.Fs.Walk.{
  first_of, visit_blocks, visit_inodes, visit_pointers, visit_index, visit_inode, load_inodes,
}

module _ {P : FileSystem → Type 0} (func : ℕ → M ℕ) (keeps : (b : ℕ) → Keeps P (func b)) where
  first_of-Keeps : (r : ℕ) (rest : M ℕ) → Keeps P rest → Keeps P (first_of r rest)
  first_of-Keeps r rest h = Keeps-cond (r == 0) h (Keeps-pure r)

  visit_blocks-Keeps : (n : ℕ) (blocks : List ℕ) → Keeps P (visit_blocks func n blocks)
  unfolding visit_blocks
  visit_blocks-Keeps zero blocks = Keeps-pure 0
  visit_blocks-Keeps (suc n) [] = Keeps-stuck
  visit_blocks-Keeps (suc n) (b ∷ blocks) =
      Keeps-bind (func b) _ (keeps b) λ r. first_of-Keeps r _ (visit_blocks-Keeps n blocks)

  visit_inodes-Keeps : (inodes : List Inode) → Keeps P (visit_inodes func inodes)
  unfolding visit_inodes
  visit_inodes-Keeps [] = Keeps-stuck
  visit_inodes-Keeps (n ∷ ns) = Keeps-cond (n.i_blocks == 0) (Keeps-pure 0) (
      Keeps-bind (visit_blocks func n.i_blocks n.i_block) _
        (visit_blocks-Keeps n.i_blocks n.i_block) λ r. first_of-Keeps r _ (visit_inodes-Keeps ns))

  visit_pointers-Keeps : (ws : List ℕ) → Keeps P (visit_pointers func ws)
  unfolding visit_pointers
  visit_pointers-Keeps [] = Keeps-stuck
  visit_pointers-Keeps (w ∷ ws) = Keeps-cond (w == 0) (Keeps-pure 0) (
      Keeps-bind _ _ (Keeps-gets (load_inodes w)) λ inodes.
        Keeps-bind (visit_inodes func inodes) _ (visit_inodes-Keeps inodes)
          λ r. first_of-Keeps r _ (visit_pointers-Keeps ws))

  visit_index-Keeps : (inode : Inode) (b : ℕ) → Keeps P (visit_index func inode b)
  unfolding visit_index
  visit_index-Keeps inode b = Keeps-cond (ltb b 6) (keeps _) (
      Keeps-cond (b == 6) (Keeps-bind _ _ (Keeps-gets _) visit_inodes-Keeps)
        (Keeps-cond (b == 7) (Keeps-bind _ _ (Keeps-gets _) visit_pointers-Keeps) (Keeps-pure 0)))

  pub visit_inode-Keeps : (inode : Inode) (n b : ℕ) → Keeps P (visit_inode func inode n b)
  unfolding visit_inode
  visit_inode-Keeps inode zero b = Keeps-pure 0
  visit_inode-Keeps inode (suc n) b =
      Keeps-bind (visit_index func inode b) _ (visit_index-Keeps inode b)
        λ r. first_of-Keeps r _ (visit_inode-Keeps inode n (b + 1))
