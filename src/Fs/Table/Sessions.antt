-- ===== src/Fs/Table/Sessions.antt =====
-- Every session of the shell of lab3/3.c keeps the table of open files.
use xjtu_oslab.Fs.Table.Opening.{
  HasTable, HasTable-IsStable, close_slot-Keeps, cd-Keeps, initialize_disk-Keeps, zeros-IsTable,
  format-Keeps, open_file-Keeps,
}
use xjtu_oslab.Fs.Commands.Opened.{close_slot, close_file}
use xjtu_oslab.Base.{Option, none, some, length, take}
use xjtu_oslab.Fs.Bytes.{Bytes}
use xjtu_oslab.Fs.Disk.{load_group_desc}
use xjtu_oslab.Fs.State.Keeps.{Keeps-option}
use xjtu_oslab.Fs.Setup.{fgets, login, login_loop}
use xjtu_oslab.Fs.Shell.{open_disk, main, with_input, behind_text}
use xjtu_oslab.Fs.State.{M, pure, ◌>>=◌}
use xjtu_oslab.Base.{◌∷◌, []}
use xjtu_oslab.Base.{ℕ, List, [], ◌∷◌}
use xjtu_oslab.Fs.State.{FileSystem, M, ft_dir, ft_reg_file, pure, ◌>>=◌}
use xjtu_oslab.Fs.State.Keeps.{
  Ensures, Keeps, Keeps-bind, Keeps-pure, Keeps-gets, Keeps-lift, Keeps-cond,
}
use xjtu_oslab.Fs.Setup.{initialize_memory}
use xjtu_oslab.Fs.Commands.{Reply, done, not_a_command, mkdir, create}
use xjtu_oslab.Fs.Shell.{
  Command, ls_command, passwd_command, format_command, quit_command, unknown_command, cd_command,
  mkdir_command, create_command, rmdir_command, delete_command, open_command, close_command,
  read_command, write_command, chmod_command, command_of, execute, is_quit, shell,
}
use xjtu_oslab.Fs.Table.Commands.{
  dir-Keeps, create_as-Keeps, rmdir-Keeps, delete-Keeps, on_open_file-Keeps, read_file-Keeps,
  write_file-Keeps, chmod-Keeps, pwd-Keeps,
}
use xjtu_oslab.Fs.Table.Slots.{IsTable}

with_input-Keeps :
    (typed : List ℕ) (m : M Reply) → Keeps HasTable m → Keeps HasTable (with_input typed m)
with_input-Keeps typed m k = Keeps-bind _ _ k λ reply. Keeps-pure (reply, typed)

execute-Keeps : (c : Command) (quit : ℕ) (typed : List ℕ) → Keeps HasTable (execute c quit typed)
unfolding execute mkdir create close_file
execute-Keeps ls_command quit typed = with_input-Keeps typed _ (dir-Keeps HasTable-IsStable)
execute-Keeps (cd_command text) quit typed = with_input-Keeps typed _ (cd-Keeps text)
execute-Keeps passwd_command quit typed =
    Keeps-bind _ _ (pwd-Keeps HasTable-IsStable typed) λ rest. Keeps-pure (done, rest)
execute-Keeps (mkdir_command text) quit typed =
    with_input-Keeps typed _ (create_as-Keeps HasTable-IsStable ft_dir text)
execute-Keeps (create_command text) quit typed =
    with_input-Keeps typed _ (create_as-Keeps HasTable-IsStable ft_reg_file text)
execute-Keeps (rmdir_command text) quit typed =
    with_input-Keeps typed _ (rmdir-Keeps HasTable-IsStable text)
execute-Keeps (delete_command text) quit typed =
    with_input-Keeps typed _ (delete-Keeps HasTable-IsStable text)
execute-Keeps (open_command text) quit typed = with_input-Keeps typed _ (open_file-Keeps text)
execute-Keeps (close_command text) quit typed =
    with_input-Keeps typed _ (on_open_file-Keeps HasTable-IsStable text close_slot close_slot-Keeps)
execute-Keeps (read_command text) quit typed =
    with_input-Keeps typed _ (read_file-Keeps HasTable-IsStable text)
execute-Keeps (write_command text) quit typed =
    Keeps-bind _ _ (write_file-Keeps HasTable-IsStable text (take quit typed))
      λ reply. Keeps-pure (reply, behind_text quit typed reply)
execute-Keeps (chmod_command text) quit typed =
    with_input-Keeps typed _ (chmod-Keeps HasTable-IsStable text)
execute-Keeps format_command quit typed =
    Keeps-bind _ _ (format-Keeps typed) λ rest. Keeps-pure (done, rest)
execute-Keeps quit_command quit typed = with_input-Keeps typed _ (Keeps-pure done)
execute-Keeps unknown_command quit typed = with_input-Keeps typed _ (Keeps-pure not_a_command)

shell-Keeps : (quits typed : List ℕ) → Keeps HasTable (shell quits typed)
unfolding shell
shell-Keeps [] typed = Keeps-pure {A = List Reply} []
shell-Keeps (quit ∷ quits) [] = Keeps-pure {A = List Reply} []
shell-Keeps (quit ∷ quits) (c ∷ typed) =
    let (line, rest) = fgets 255 (c ∷ typed) in
    Keeps-cond (is_quit (command_of line)) (Keeps-pure {A = List Reply} []) (
      Keeps-bind _ _ (execute-Keeps (command_of line) quit rest) λ (reply, rest').
        Keeps-bind _ _ (shell-Keeps quits rest') λ replies. Keeps-pure (reply ∷ replies))

open_disk-Keeps : (file : Option Bytes) (typed : List ℕ) → Keeps HasTable (open_disk file typed)
unfolding open_disk
open_disk-Keeps (some d) typed = record { kept = λ fs h. record { holds = h } }
open_disk-Keeps none typed = record {
  kept = λ fs h. (initialize_disk-Keeps typed).kept (record fs { disk = λ p. 0 }) h;
}

login-Keeps : (typed : List ℕ) → Keeps HasTable (login typed)
unfolding login
login-Keeps typed =
    Keeps-bind _ _ (Keeps-gets load_group_desc)
      λ g. Keeps-lift (login_loop (length typed) g.password typed)

-- The table of open files has 16 slots, and no inode stands in two of them, whenever the program has
-- ended or waits for more to be typed: for every file it finds or none, and all bytes that are typed
-- for which its behaviour is defined, wherever signals end the texts that are written, after any
-- number of rounds of the shell, and whatever the globals were before.
pub main-IsTable :
    (fs : FileSystem) (file : Option Bytes) (quits typed : List ℕ)
    → Ensures (λ fs'. IsTable fs'.fopen_table) (main file quits typed fs)
unfolding main initialize_memory
main-IsTable fs file quits typed = (rest.kept (initialize_memory fs) zeros-IsTable).holds
  where
    rest : Keeps HasTable (
        open_disk file typed >>= λ typed1. login typed1 >>= λ outcome.
        elim outcome as (λ _. M (Option (List Reply))) [
          | none ↦ pure none
          | some typed2 ↦ shell quits typed2 >>= λ replies. pure (some replies)
        ])
    rest = Keeps-bind _ _ (open_disk-Keeps file typed) λ typed1.
        Keeps-bind _ _ (login-Keeps typed1) λ outcome.
          Keeps-option outcome (Keeps-pure {A = Option (List Reply)} none) λ typed2.
            Keeps-bind _ _ (shell-Keeps quits typed2)
              λ replies. Keeps-pure {A = Option (List Reply)} (some replies)
