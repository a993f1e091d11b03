-- ===== src/Fs/Commands/Mode.antt =====
-- lab3/3.c, lines 1175 to 1213: `chmod`.
use xjtu_oslab.Base.{
  ℕ, ◌+◌, ◌-◌, ◌^◌, List, [], ◌∷◌, Option, none, some, true, false, ◌==◌, if◌then◌else◌,
}
use Prim.Native.Nat.{bit_and, bit_or}
use xjtu_oslab.Fs.Disk.{load_inode_table, update_inode_table}
use xjtu_oslab.Fs.State.{ft_reg_file, M, pure, ◌>>=◌, ◌>>◌, gets, puts, time, lift}
use xjtu_oslab.Fs.Setup.{chop}
use xjtu_oslab.Fs.Commands.{Reply, done, not_found, invalid_mode, look_up}

-- `r`, `w` or `x`
abbrev pub right_of : ℕ → ℕ
right_of c = if c == 114 then 4 else if c == 119 then 2 else if c == 120 then 1 else 0

-- The letters up to the first blank, and the name behind it. Without a blank the loop leaves the text.
unfoldable pub parse_rights : List ℕ → ℕ → Option (ℕ × List ℕ)
parse_rights [] permission = none
parse_rights (c ∷ cs) permission = elim (c == 32) [
  | true ↦ some (permission, cs)
  | false ↦ parse_rights cs (permission + right_of c)
]

-- `+` sets the bits and `-` clears them; any other sign is refused.
unfoldable pub apply_rights : ℕ → ℕ → ℕ → Option ℕ
apply_rights sign permission mode =
    if sign == 43
    then some (bit_or mode permission)
    else if sign == 45
    then some (bit_and mode (2 ^ 16 - 1 - permission))
    else none

-- `chmod` for its sign, its permissions and the name.
unfoldable pub change_mode : ℕ → ℕ → List ℕ → M Reply
unfolding look_up apply_rights
change_mode sign permission name = do
  inode_id ← look_up name ft_reg_file
  elim (inode_id == 0) [
    | true ↦ pure not_found
    | false ↦ do
      inode ← gets (load_inode_table inode_id)
      ctime ← time
      elim (apply_rights sign permission inode.i_mode) [
        | none ↦ pure invalid_mode
        | some mode ↦
            puts (update_inode_table (record inode { i_ctime = ctime; i_mode = mode }) inode_id)
            >> pure done
      ]
  ]

abbrev pub signed_rights : List ℕ → Option (ℕ × ℕ × List ℕ)
signed_rights [] = none
signed_rights (sign ∷ text) = elim (parse_rights text 0) [
  | none ↦ none
  | some (permission, name) ↦ some (sign, permission, name)
]

unfoldable pub chmod : List ℕ → M Reply
unfolding change_mode parse_rights
chmod text = do
  (sign, permission, name) ← lift (signed_rights (chop text))
  change_mode sign permission name
