-- ===== src/Fs/Commands/Examples.antt =====
-- Files, paths and the password of lab3/3.c at concrete inputs.
use xjtu_oslab.Base.{ℕ, ◌≡◌, ◌≢◌, refl, arith, [], ◌∷◌, ◌++◌, some, replicate}
use xjtu_oslab.Fs.Bytes.{read}
use xjtu_oslab.Fs.Disk.{load_block_entry, block_offset}
use xjtu_oslab.Fs.State.{FileSystem, ok}
use xjtu_oslab.Fs.Directory.{string_of}
use xjtu_oslab.Fs.Directory.Examples.{image, system}
use xjtu_oslab.Fs.Create.{dotdot}
use xjtu_oslab.Fs.Files.{try_write}
use xjtu_oslab.Fs.Files.Append.{try_write_lem}
use xjtu_oslab.Fs.Setup.{pwd, login, root_name}
use xjtu_oslab.Fs.Setup.Password.{IsText, typed_lines, pwd-login}
use xjtu_oslab.Fs.Commands.{done, change_dir}
use xjtu_oslab.Fs.Commands.Path.{change_dir-dotdot}

abbrev at_root : FileSystem
at_root = record system { disk = λ p. 0; current_path = root_name }

-- Into `ab` and back.
change_dir-dotdot_example :
    (fs' : FileSystem) × (change_dir (97 ∷ 98 ∷ []) 5 at_root ≡ ok done fs')
    × (fs'.current_dir ≡ 5)
    × (change_dir dotdot 1 fs' ≡ ok done (record at_root { current_dir = 1 }))
change_dir-dotdot_example =
    change_dir-dotdot at_root (97 ∷ 98 ∷ []) 5 1 (ground arith) refl refl (omega arith)

pw-IsText : IsText (112 ∷ 119 ∷ [])
pw-IsText = record { no_nul = ground arith; no_newline = ground arith; short = omega arith }

p-IsText : IsText (112 ∷ [])
p-IsText = record { no_nul = ground arith; no_newline = ground arith; short = omega arith }

-- The password `pw`, after one wrong line.
pwd-login_example :
    (fs' : FileSystem) × (pwd ((112 ∷ 119 ∷ []) ++ 10 ∷ 108 ∷ 115 ∷ 10 ∷ []) at_root
      ≡ ok (108 ∷ 115 ∷ 10 ∷ []) fs')
    × (login (typed_lines ((112 ∷ []) ∷ []) ((112 ∷ 119 ∷ []) ++ 10 ∷ [])) fs' ≡ ok (some []) fs')
pwd-login_example =
    pwd-login at_root (112 ∷ 119 ∷ []) ((112 ∷ []) ∷ []) (108 ∷ 115 ∷ 10 ∷ []) [] (λ p. omega arith)
      (ground arith) pw-IsText ((p-IsText, refl), tt)

empty_block : load_block_entry 1 image ≡ 0 ∷ replicate 511 0
unfolding load_block_entry block_offset read
empty_block = refl

try_write_lem_example :
    (fs' : FileSystem) × (try_write 1 (104 ∷ 105 ∷ []) system ≡ ok 511 fs')
    × (string_of (load_block_entry 1 fs'.disk) ≡ some (104 ∷ 105 ∷ []))
    × ((b : ℕ) → b ≢ 1 → load_block_entry b fs'.disk ≡ load_block_entry b image)
try_write_lem_example =
    try_write_lem system 1 [] (replicate 511 0) (104 ∷ 105 ∷ []) empty_block tt (ground arith)
