-- ===== src/Fs/Setup.antt =====
-- lab3/3.c, lines 129 to 148, 867 to 888, 1078 to 1101 and 1169 to 1173: a new file system, and
-- its password. What is typed is a list of bytes, and a function that reads from it returns the rest.
pub mod Password
pub mod Sectors
use xjtu_oslab.Base.{
  ℕ, zero, suc, ◌+◌, ◌*◌, List, [], ◌∷◌, ◌++◌, Option, none, some, true, false, leb, ◌==◌,
  if◌then◌else◌, length, replicate,
}
use xjtu_oslab.Fs.Bytes.{Bytes, write, zero_bytes, behind}
use xjtu_oslab.Fs.Disk.{
  data_block_count, inode_count, block_size, GroupDesc, load_group_desc, update_group_desc,
}
use xjtu_oslab.Fs.State.{FileSystem, ok, M, pure, ◌>>=◌, ◌>>◌, gets, puts, lift, ft_dir}
use xjtu_oslab.Fs.Directory.{equal_string}
use xjtu_oslab.Fs.Create.{new_dir_entry}

abbrev pub disk_size : ℕ
disk_size = 4611

-- `name[strlen(name)-1] = '\0'`. For an empty text the write lands on the byte in front of it.
abbrev pub chop : List ℕ → List ℕ
chop [] = []
chop (c ∷ []) = []
chop (c ∷ d ∷ cs) = c ∷ chop (d ∷ cs)

-- `fgets(line, n + 1, stdin)`: the bytes up to a newline, which is one of them, but no more than `n`;
-- and the rest of the input.
unfoldable pub fgets : ℕ → List ℕ → List ℕ × List ℕ
fgets zero input = ([], input)
fgets (suc n) [] = ([], [])
fgets (suc n) (c ∷ cs) =
    let (line, rest) = fgets n cs in if c == 10 then (c ∷ [], cs) else (c ∷ line, rest)

-- `strcpy` of a password into its 20 bytes; a longer one overflows them.
unfoldable pub copy_password : List ℕ → List ℕ → Option (List ℕ)
copy_password text old =
    if leb (length text + 1) 20 then some (text ++ 0 ∷ behind (length text + 1) old) else none

-- `fgets(password, 20, stdin)`. At the end of the input nothing is stored in the array, which has no
-- value before.
unfoldable pub read_password : List ℕ → Option (List ℕ × List ℕ)
unfolding fgets
read_password [] = none
read_password (c ∷ input) = some (fgets 19 (c ∷ input))

-- With the line that is read.
unfoldable pub new_group_desc : List ℕ → Option GroupDesc
unfolding copy_password
new_group_desc line = elim (copy_password (chop line) (zero_bytes 20)) [
  | none ↦ none
  | some password ↦ some (record {
    bg_volume_name = zero_bytes 16;
    bg_block_bitmap = 1;
    bg_inode_bitmap = 2;
    bg_inode_table = 3;
    bg_free_blocks_count = data_block_count;
    bg_free_inodes_count = inode_count;
    bg_used_dirs_count = 0;
    password = password;
    bg_pad = replicate 464 0xff;
  })
]

-- `root`
abbrev pub root_name : List ℕ
root_name = 114 ∷ 111 ∷ 111 ∷ 116 ∷ []

unfoldable pub initialize_memory : FileSystem → FileSystem
initialize_memory fs = record fs {
  fopen_table = replicate 16 0;
  last_alloc_block = 1;
  last_alloc_inode = 1;
  current_dir = 1;
  current_path = root_name;
}

-- The loop over the first `n` sectors.
unfoldable pub clear_sectors : ℕ → Bytes → Bytes
clear_sectors zero d = d
clear_sectors (suc n) d = write (clear_sectors n d) (n * block_size) (zero_bytes block_size)

unfoldable pub initialize_disk : List ℕ → M (List ℕ)
unfolding new_group_desc read_password clear_sectors
initialize_disk typed = do
  puts (clear_sectors disk_size)
  (line, rest) ← lift (read_password typed)
  group_desc ← lift (new_group_desc line)
  puts (update_group_desc group_desc)
  _ ← new_dir_entry root_name ft_dir
  pure rest

unfoldable pub format : List ℕ → M (List ℕ)
format typed = (λ fs. ok tt (initialize_memory fs)) >> initialize_disk typed

-- `passwd`
unfoldable pub pwd : List ℕ → M (List ℕ)
unfolding read_password
pwd typed = do
  g ← gets load_group_desc
  (line, rest) ← lift (read_password typed)
  password ← lift (copy_password (chop line) g.password)
  puts (update_group_desc (record g { password = password }))
  pure rest

-- What is left of the input once a line is the password, or `none` if none is: then the loop waits for
-- more. A stored password without a NUL would be compared behind its 20 bytes. The fuel is the length
-- of the input, of which each round reads a byte at least.
unfoldable pub login_loop : ℕ → List ℕ → List ℕ → Option (Option (List ℕ))
unfolding read_password
login_loop zero password typed = some none
login_loop (suc fuel) password typed = elim (read_password typed) [
  | none ↦ some none
  | some (line, rest) ↦ elim (equal_string password (chop line)) [
    | none ↦ none
    | some true ↦ some (some rest)
    | some false ↦ login_loop fuel password rest
  ]
]

unfoldable pub login : List ℕ → M (Option (List ℕ))
unfolding login_loop
login typed = gets load_group_desc >>= λ g. lift (login_loop (length typed) g.password typed)
