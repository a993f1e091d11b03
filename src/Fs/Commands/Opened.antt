-- ===== src/Fs/Commands/Opened.antt =====
-- lab3/3.c, lines 1047 to 1076 and 1103 to 1167: the table of open files, and the commands on them.
use xjtu_oslab.Base.{ℕ, ◌^◌, ◌%◌, List, [], ◌∷◌, Option, none, some, Bool, true, false, ◌||◌, ◌==◌}
use xjtu_oslab.Fs.Disk.{Inode, load_inode_table, update_inode_table}
use xjtu_oslab.Fs.State.{ft_reg_file, ok, M, pure, ◌>>=◌, ◌>>◌, gets, puts, time}
use xjtu_oslab.Fs.Directory.{is_open}
use xjtu_oslab.Fs.Walk.{handle_read_inode, printing}
use xjtu_oslab.Fs.Files.{handle_write_inode}
use xjtu_oslab.Fs.Setup.{chop}
use xjtu_oslab.Fs.Commands.{
  Reply, done, not_found, already_open, not_open, too_many, permission_denied, asks, look_up,
}

-- The first slot with `old` gets `new`, if there is one.
unfoldable pub replace_first : ℕ → ℕ → List ℕ → Option (List ℕ)
replace_first old new [] = none
replace_first old new (f ∷ fs) = elim (f == old) [
  | true ↦ some (new ∷ fs)
  | false ↦ elim (replace_first old new fs) [ none ↦ none | some gs ↦ some (f ∷ gs) ]
]

abbrev pub may_open : ℕ → Bool
may_open permission = permission == 4 || (permission == 6 || permission == 7)

abbrev pub may_read : ℕ → Bool
may_read permission = permission == 4 || (permission == 5 || (permission == 6 || permission == 7))

abbrev pub may_write : ℕ → Bool
may_write permission = permission == 2 || (permission == 3 || (permission == 6 || permission == 7))

unfoldable pub stamp_access : ℕ → Inode → M (Unit {0})
stamp_access inode_id inode = do
  atime ← time
  puts (update_inode_table (record inode { i_atime = atime }) inode_id)

unfoldable pub open_slot : ℕ → M Reply
unfolding replace_first
open_slot inode_id fs = elim (replace_first 0 inode_id fs.fopen_table) [
  | none ↦ ok too_many fs
  | some table ↦ ok done (record fs { fopen_table = table })
]

unfoldable pub open_file : List ℕ → M Reply
unfolding look_up stamp_access open_slot
open_file text = do
  inode_id ← look_up (chop text) ft_reg_file
  elim (inode_id == 0) [
    | true ↦ pure not_found
    | false ↦ do
      table ← asks (λ fs. fs.fopen_table)
      elim (is_open inode_id table) [
        | true ↦ pure already_open
        | false ↦ do
          inode ← gets (load_inode_table inode_id)
          elim (may_open (inode.i_mode % 2 ^ 8)) [
            | false ↦ pure permission_denied
            | true ↦ stamp_access inode_id inode >> open_slot inode_id
          ]
      ]
  ]

unfoldable pub close_slot : ℕ → M Reply
unfolding replace_first
close_slot inode_id fs = elim (replace_first inode_id 0 fs.fopen_table) [
  | none ↦ ok done fs
  | some table ↦ ok done (record fs { fopen_table = table })
]

-- The tests that `close`, `read` and `write` begin with, and the rest for the inode.
unfoldable pub on_open_file : List ℕ → (ℕ → M Reply) → M Reply
unfolding look_up
on_open_file text rest = do
  inode_id ← look_up (chop text) ft_reg_file
  elim (inode_id == 0) [
    | true ↦ pure not_found
    | false ↦ do
      table ← asks (λ fs. fs.fopen_table)
      elim (is_open inode_id table) [ false ↦ pure not_open | true ↦ rest inode_id ]
  ]

unfoldable pub close_file : List ℕ → M Reply
unfolding on_open_file close_slot
close_file text = on_open_file text close_slot

unfoldable pub read_file : List ℕ → M Reply
unfolding on_open_file stamp_access
read_file text = on_open_file text λ inode_id. gets (load_inode_table inode_id) >>= λ inode.
    elim (may_read (inode.i_mode % 2 ^ 8)) [
      | false ↦ pure permission_denied
      | true ↦ do stamp_access inode_id inode; handle_read_inode inode_id printing; pure done
    ]

-- With the bytes that `input` reads.
unfoldable pub write_file : List ℕ → List ℕ → M Reply
unfolding on_open_file
write_file text typed = on_open_file text λ inode_id. gets (load_inode_table inode_id) >>= λ inode.
    elim (may_write (inode.i_mode % 2 ^ 8)) [
      | false ↦ pure permission_denied
      | true ↦ handle_write_inode inode_id typed >> pure done
    ]
