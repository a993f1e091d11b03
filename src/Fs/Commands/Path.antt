-- ===== src/Fs/Commands/Path.antt =====
-- The current path of lab3/3.c under `cd`.
use xjtu_oslab.Base.{
  ℕ, ◌+◌, ◌≤◌, ◌≡◌, refl, arith, List, [], ◌∷◌, ◌++◌, none, some, false, ◌==◌, length, All, le→leb,
}
use xjtu_oslab.Fs.State.{FileSystem, ok}
use xjtu_oslab.Fs.Create.{same_name, dot, dotdot}
use xjtu_oslab.Fs.Commands.{done, cut_last, parent_path, child_path, enter, change_dir}

cut_last-none : (name : List ℕ) → All (λ c. (c == 47) ≡ false) name → cut_last name ≡ none
unfolding cut_last
cut_last-none [] h = refl
cut_last-none (c ∷ name) h = rw (cut_last, cut_last-none name h.1, h.0) refl

cut_last-append :
    (path name : List ℕ)
    → All (λ c. (c == 47) ≡ false) name
    → cut_last (path ++ 47 ∷ name) ≡ some path
unfolding cut_last
cut_last-append [] name h = rw (cut_last, cut_last-none name h) refl
cut_last-append (c ∷ path) name h = rw (cut_last, cut_last-append path name h) refl

-- `cd` into a directory and back: for a name without `/` that is neither `.` nor `..` and fits the
-- 256 bytes of the path, the change into the directory that was found is defined and makes it the
-- current one; a change by `..` after it restores the path, and its directory is the current one.
pub change_dir-dotdot :
    (fs : FileSystem) (name : List ℕ) (child parent : ℕ)
    → All (λ c. (c == 47) ≡ false) name
    → same_name name dot ≡ false
    → same_name name dotdot ≡ false
    → length fs.current_path + length name + 2 ≤ 256
    → (fs' : FileSystem) × (change_dir name child fs ≡ ok done fs')
      × (fs'.current_dir ≡ child)
      × (change_dir dotdot parent fs' ≡ ok done (record fs { current_dir = parent }))
unfolding change_dir child_path parent_path enter
change_dir-dotdot fs name child parent plain other other' fit = (
  record fs { current_path = fs.current_path ++ 47 ∷ name; current_dir = child },
  rw
      (
        change_dir,
        other,
        other',
        le→leb (length fs.current_path + 1 + length name + 1) 256 (omega arith),
      )
      refl,
  refl,
  rw (change_dir, parent_path, cut_last-append fs.current_path name plain) refl,
)
