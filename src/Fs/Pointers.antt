-- ===== src/Fs/Pointers.antt =====
-- lab3/3.c, lines 343 to 381 and 702 to 745: the branches `b == 7` of `handle_append_directory` and
-- `handle_write_inode`, which go over a block of block numbers and the inodes in those blocks.
pub mod Rounds
use xjtu_oslab.Base.{
  ℕ, zero, suc, ◌+◌, ◌-◌, List, [], ◌∷◌, Bool, true, false, ◌==◌, ltb, leb, if◌then◌else◌, get_or,
  set,
}
use xjtu_oslab.Fs.Bytes.{front, behind, zero_bytes, from_words, to_words}
use xjtu_oslab.Fs.Disk.{Inode, decode_inode, load_block_entry, update_block_entry}
use xjtu_oslab.Fs.State.{M, pure, ◌>>=◌, ◌>>◌, gets, puts, stuck}
use xjtu_oslab.Fs.Space.{new_block}
use xjtu_oslab.Fs.Directory.{DirEntry, append_dir_entry}

-- `strcmp` of two names, as a test for equality.
abbrev pub same_name : List ℕ → List ℕ → Bool
same_name [] [] = true
same_name [] (c ∷ cs) = false
same_name (b ∷ bs) [] = false
same_name (b ∷ bs) (c ∷ cs) = if b == c then same_name bs cs else false

-- Whether the result of `memcmp` with `allZero`, of which only the first 8 bytes have been cleared,
-- depends on memory that nothing has written. Otherwise it is not 0.
abbrev pub is_doubtful : List ℕ → Bool
is_doubtful bytes = same_name (front 8 bytes) (zero_bytes 8)

-- The loop over `sb`, for an inode that says it has so many blocks, which grow with it; the entry goes
-- to the block `target` in every round. Behind `i_block` it is undefined. The copy of the inode is
-- not stored. There is fuel for one round more than the loop can have.
unfoldable pub append_rounds : ℕ → ℕ → ℕ → DirEntry → ℕ → M DirEntry
append_rounds zero sb blocks e target = stuck
append_rounds (suc n) sb blocks e target = elim (ltb sb blocks) [
  | false ↦ pure e
  | true ↦ do
    (done, e') ← append_dir_entry e target
    elim (done == 0) [
      | false ↦ pure e'
      | true ↦ elim (sb == blocks - 1) [
        | false ↦ append_rounds n (sb + 1) blocks e' target
        | true ↦ elim (blocks == 7) [
          | true ↦ pure e'
          | false ↦ elim (leb 7 sb) [
            | true ↦ stuck
            | false ↦ new_block >>= λ _. append_rounds n (sb + 1) (blocks + 1) e' target
          ]
        ]
      ]
    ]
]

-- The loop over `idx`, on the bytes from inode `idx` on, with the number of inodes behind it.
unfoldable pub append_inodes : ℕ → List ℕ → DirEntry → ℕ → M DirEntry
unfolding append_rounds
append_inodes zero bytes e target = elim ((decode_inode (front 64 bytes)).i_blocks == 0) [
  | true ↦ pure e
  | false ↦ stuck
]
append_inodes (suc n) bytes e target =
    let blocks : ℕ = (decode_inode (front 64 bytes)).i_blocks in
    elim (blocks == 0) [
      | true ↦ pure e
      | false ↦ do
        e' ← append_rounds (blocks + 8) 0 blocks e target
        elim (is_doubtful (behind 64 bytes)) [
          | true ↦ stuck
          | false ↦ append_inodes n (behind 64 bytes) e' target
        ]
    ]

-- The loop over `bid = 255 - n`, with the block numbers. Behind the last of them it is undefined.
unfoldable pub append_pointers : ℕ → ℕ → List ℕ → DirEntry → ℕ → M (List ℕ × DirEntry)
unfolding append_inodes
append_pointers zero bid words e target = elim (get_or words bid 0 == 0) [
  | true ↦ pure (words, e)
  | false ↦ stuck
]
append_pointers (suc n) bid words e target = elim (get_or words bid 0 == 0) [
  | true ↦ pure (words, e)
  | false ↦ do
    block ← gets (load_block_entry (get_or words bid 0))
    e' ← append_inodes 7 block e target
    elim (get_or words (bid + 1) 0 == 0) [
      | false ↦ append_pointers n (bid + 1) words e' target
      | true ↦ elim (bid == 31) [
        | true ↦ pure (words, e')
        | false ↦ new_block >>= λ k. append_pointers n (bid + 1) (set words (bid + 1) k) e' target
      ]
    ]
]

-- The branch for an entry.
unfoldable pub append_indirect : Inode → DirEntry → M DirEntry
unfolding append_pointers
append_indirect inode e = do
  block ← gets (load_block_entry (get_or inode.i_block 7 0))
  (words, e') ← append_pointers 255 0 (from_words 256 block) e (get_or inode.i_block 7 0)
  puts (update_block_entry (to_words words) (get_or inode.i_block 7 0))
  pure e'

-- The loop over `bid = 255 - n` of the other function. In each block the loop over the inodes is
-- undefined or has no round.
unfoldable pub write_pointers : ℕ → ℕ → List ℕ → M (List ℕ)
write_pointers zero bid words = elim (get_or words bid 0 == 0) [ true ↦ pure words | false ↦ stuck ]
write_pointers (suc n) bid words = elim (get_or words bid 0 == 0) [
  | true ↦ pure words
  | false ↦ do
    block ← gets (load_block_entry (get_or words bid 0))
    elim (is_doubtful block) [
      | true ↦ stuck
      | false ↦ elim (get_or words (bid + 1) 0 == 0) [
        | false ↦ do
          puts (update_block_entry block (get_or words bid 0))
          write_pointers n (bid + 1) words
        | true ↦ elim (bid == 31) [
          | true ↦ do puts (update_block_entry block (get_or words bid 0)); pure words
          | false ↦ do
            k ← new_block
            puts (update_block_entry block (get_or words bid 0))
            write_pointers n (bid + 1) (set words (bid + 1) k)
        ]
      ]
    ]
]

-- The branch for a text, which stays as it is.
unfoldable pub write_indirect : Inode → M (Unit {0})
unfolding write_pointers
write_indirect inode = do
  block ← gets (load_block_entry (get_or inode.i_block 7 0))
  words ← write_pointers 255 0 (from_words 256 block)
  puts (update_block_entry (to_words words) (get_or inode.i_block 7 0))
