-- ===== src/Fs/Shell.antt =====
-- lab3/3.c, lines 1215 to 1267: the shell, over the bytes that are typed.
use xjtu_oslab.Base.{
  ℕ, List, [], ◌∷◌, Option, none, some, Bool, true, false, ◌==◌, if◌then◌else◌, drop, take, leb,
}
use xjtu_oslab.Fs.Bytes.{Bytes}
use xjtu_oslab.Fs.State.{ok, M, pure, ◌>>=◌, ◌>>◌}
use xjtu_oslab.Fs.Setup.{fgets, initialize_memory, initialize_disk, format, pwd, login}
use xjtu_oslab.Fs.Commands.{Reply, done, not_a_command, dir, mkdir, create, rmdir, delete, cd}
use xjtu_oslab.Fs.Commands.Opened.{open_file, close_file, read_file, write_file}
use xjtu_oslab.Fs.Commands.Mode.{chmod}

pub data Command : Type 0 where
  ls_command passwd_command format_command quit_command unknown_command : Command
  cd_command mkdir_command create_command rmdir_command delete_command : List ℕ → Command
  open_command close_command read_command write_command chmod_command : List ℕ → Command

-- `strncmp` of the line with a word, over the length of the word.
unfoldable pub starts_with : List ℕ → List ℕ → Bool
starts_with [] line = true
starts_with (w ∷ ws) [] = false
starts_with (w ∷ ws) (c ∷ cs) = if w == c then starts_with ws cs else false

-- The tests of the loop, in their order; `passwd` is compared in 3 letters. What a command takes
-- begins one byte behind its word.
unfoldable pub command_of : List ℕ → Command
unfolding starts_with
command_of line =
    if starts_with (108 ∷ 115 ∷ []) line
    then ls_command
    else if starts_with (99 ∷ 100 ∷ []) line
    then cd_command (drop 3 line)
    else if starts_with (112 ∷ 97 ∷ 115 ∷ []) line
    then passwd_command
    else if starts_with (109 ∷ 107 ∷ 100 ∷ 105 ∷ 114 ∷ []) line
    then mkdir_command (drop 6 line)
    else if starts_with (99 ∷ 114 ∷ 101 ∷ 97 ∷ 116 ∷ 101 ∷ []) line
    then create_command (drop 7 line)
    else if starts_with (114 ∷ 109 ∷ 100 ∷ 105 ∷ 114 ∷ []) line
    then rmdir_command (drop 6 line)
    else if starts_with (100 ∷ 101 ∷ 108 ∷ 101 ∷ 116 ∷ 101 ∷ []) line
    then delete_command (drop 7 line)
    else if starts_with (111 ∷ 112 ∷ 101 ∷ 110 ∷ []) line
    then open_command (drop 5 line)
    else if starts_with (99 ∷ 108 ∷ 111 ∷ 115 ∷ 101 ∷ []) line
    then close_command (drop 6 line)
    else if starts_with (114 ∷ 101 ∷ 97 ∷ 100 ∷ []) line
    then read_command (drop 5 line)
    else if starts_with (119 ∷ 114 ∷ 105 ∷ 116 ∷ 101 ∷ []) line
    then write_command (drop 6 line)
    else if starts_with (99 ∷ 104 ∷ 109 ∷ 111 ∷ 100 ∷ []) line
    then chmod_command (drop 6 line)
    else if starts_with (102 ∷ 111 ∷ 114 ∷ 109 ∷ 97 ∷ 116 ∷ []) line
    then format_command
    else if starts_with (113 ∷ 117 ∷ 105 ∷ 116 ∷ []) line
    then quit_command
    else unknown_command

-- What a command that reads nothing leaves of the input.
abbrev pub with_input : List ℕ → M Reply → M (Reply × List ℕ)
with_input typed m = m >>= λ reply. pure (reply, typed)

-- `input` reads the first bytes of what is typed, up to the signal, `quit` of them, where it is
-- called: then the command is done.
abbrev pub behind_text : ℕ → List ℕ → Reply → List ℕ
behind_text quit typed done = drop (if leb quit 1024 then quit else 1024) typed
behind_text quit typed _ = typed

-- A command reads a password, or the text of a file, from what is typed. The rest is left.
unfoldable pub execute : Command → ℕ → List ℕ → M (Reply × List ℕ)
execute ls_command quit typed = with_input typed dir
execute (cd_command text) quit typed = with_input typed (cd text)
execute passwd_command quit typed = pwd typed >>= λ rest. pure (done, rest)
execute (mkdir_command text) quit typed = with_input typed (mkdir text)
execute (create_command text) quit typed = with_input typed (create text)
execute (rmdir_command text) quit typed = with_input typed (rmdir text)
execute (delete_command text) quit typed = with_input typed (delete text)
execute (open_command text) quit typed = with_input typed (open_file text)
execute (close_command text) quit typed = with_input typed (close_file text)
execute (read_command text) quit typed = with_input typed (read_file text)
execute (write_command text) quit typed =
    write_file text (take quit typed) >>= λ reply. pure (reply, behind_text quit typed reply)
execute (chmod_command text) quit typed = with_input typed (chmod text)
execute format_command quit typed = format typed >>= λ rest. pure (done, rest)
execute quit_command quit typed = with_input typed (pure done)
execute unknown_command quit typed = with_input typed (pure not_a_command)

abbrev pub is_quit : Command → Bool
is_quit quit_command = true
is_quit _ = false

-- The loop, for one round for each number in `quits`: after how many bytes a signal ends the text, if
-- the command of the round is a write. The replies, the last one last. It ends with `quit`, or waits
-- when what is typed has come to its end.
unfoldable pub shell : List ℕ → List ℕ → M (List Reply)
unfolding command_of execute fgets
shell [] typed = pure []
shell (quit ∷ quits) [] = pure []
shell (quit ∷ quits) (c ∷ typed) =
    let (line, rest) = fgets 255 (c ∷ typed) in
    elim (is_quit (command_of line)) [
      | true ↦ pure []
      | false ↦ do
        (reply, rest') ← execute (command_of line) quit rest
        replies ← shell quits rest'
        pure (reply ∷ replies)
    ]

-- Where the file is missing, it is created empty, and initialised with a password. The result is what
-- is left of the input.
unfoldable pub open_disk : Option Bytes → List ℕ → M (List ℕ)
open_disk (some d) typed fs = ok typed (record fs { disk = d })
open_disk none typed fs = initialize_disk typed (record fs { disk = λ p. 0 })

-- `main` for the file, if there is one, and the bytes that are typed. `none` where the login goes on.
unfoldable pub main : Option Bytes → List ℕ → List ℕ → M (Option (List Reply))
unfolding open_disk shell
main file quits typed = do
  λ fs. ok tt (initialize_memory fs)
  typed1 ← open_disk file typed
  outcome ← login typed1
  elim outcome [
    | none ↦ pure none
    | some typed2 ↦ shell quits typed2 >>= λ replies. pure (some replies)
  ]
