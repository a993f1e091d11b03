-- ===== src/Fs/Setup/Password.antt =====
-- The password of lab3/3.c, set by `passwd` and asked for by `login`.
use xjtu_oslab.Fs.Directory.Search.{same_text_refl}
use xjtu_oslab.Base.{
  ◌⊎◌, Option, true, inl, inr, zero, suc, none, ◌==◌, ◌≢◌, ℕ, ◌+◌, ◌≤◌, ◌≡◌, ◌<◌, refl, arith, List,
  [], ◌∷◌, ◌++◌, some, false, length, length-append, All, le→leb, ap,
}
use xjtu_oslab.Fs.Bytes.{behind}
use xjtu_oslab.Fs.Bytes.Range.{AreBytes, length-behind, behind-AreBytes, append-AreBytes}
use xjtu_oslab.Fs.Disk.{GroupDesc, load_group_desc, update_group_desc}
use xjtu_oslab.Fs.Disk.RoundTrip.{GroupDescFits, update_group_desc_lem}
use xjtu_oslab.Fs.Disk.Range.{load_group_desc-Fits}
use xjtu_oslab.Fs.State.{FileSystem, ok}
use xjtu_oslab.Fs.Directory.Search.{same_text, equal_string_lem}
use xjtu_oslab.Fs.Directory.{equal_string}
use xjtu_oslab.Fs.Setup.{chop, fgets, read_password, copy_password, pwd, login_loop, login}

chop-append : (text : List ℕ) (c : ℕ) → chop (text ++ c ∷ []) ≡ text
chop-append [] c = refl
chop-append (b ∷ []) c = refl
chop-append (b ∷ d ∷ text) c = ap (◌∷◌ b) (chop-append (d ∷ text) c)

-- A text of at most 18 bytes, without NULs and newlines: with its newline it is what one call of
-- `fgets` reads.
pub record IsText (text : List ℕ) : Type 0 where
  pub no_nul : All (λ b. 0 < b) text
  pub no_newline : All (λ b. b ≢ 10) text
  pub short : length text ≤ 18

-- What is typed: these texts, each with its newline, and then the rest.
abbrev pub typed_lines : List (List ℕ) → List ℕ → List ℕ
typed_lines [] rest = rest
typed_lines (line ∷ lines) rest = line ++ 10 ∷ typed_lines lines rest

abbrev pub IsWrong : List ℕ → List ℕ → Type 0
IsWrong text line = IsText line × (same_text text line ≡ false)

fgets-line :
    (n : ℕ) (text rest : List ℕ)
    → All (λ b. b ≢ 10) text
    → length text < n
    → fgets n (text ++ 10 ∷ rest) ≡ (text ++ 10 ∷ [], rest)
unfolding fgets
fgets-line zero text rest h short = absurd (omega arith)
fgets-line (suc n) [] rest h short = refl
fgets-line (suc n) (c ∷ text) rest h short =
    let other : (c == 10) ≡ false = ground (arith, h.0) in
    rw (other, fgets-line n text rest h.1 (omega arith)) refl

read_password-line :
    (text rest : List ℕ)
    → IsText text
    → read_password (text ++ 10 ∷ rest) ≡ some (text ++ 10 ∷ [], rest)
unfolding read_password
read_password-line [] rest t = ap some (fgets-line 19 [] rest tt (omega arith))
read_password-line (c ∷ text) rest t =
    ap some (fgets-line 19 (c ∷ text) rest t.no_newline (omega (arith, t.short)))

fgets-length : (n : ℕ) (typed : List ℕ) → length (fgets n typed).1 ≤ length typed
unfolding fgets
fgets-length zero typed = omega arith
fgets-length (suc n) [] = omega arith
fgets-length (suc n) (c ∷ typed) = ground (arith, fgets-length n typed)

-- Each call for a password reads a byte at least.
fgets-shorter :
    (n c : ℕ) (typed : List ℕ) → length (fgets (suc n) (c ∷ typed)).1 < length (c ∷ typed)
unfolding fgets
fgets-shorter n c typed = ground (arith, fgets-length n typed)

-- What one read for a password gives: nothing, or a line, and what is left is shorter.
read_password-cases :
    (typed : List ℕ)
    → (read_password typed ≡ none)
      ⊎ ((r : List ℕ × List ℕ) × (read_password typed ≡ some r) × (length r.1 < length typed))
unfolding read_password
read_password-cases [] = inl refl
read_password-cases (c ∷ typed) = inr (fgets 19 (c ∷ typed), refl, fgets-shorter 18 c typed)

-- With fuel for the whole input more fuel changes nothing.
login_loop_fuel :
    (n m : ℕ) (password typed : List ℕ)
    → length typed ≤ n
    → length typed ≤ m
    → login_loop n password typed ≡ login_loop m password typed
unfolding login_loop
login_loop_fuel zero zero password typed h k = refl
login_loop_fuel zero (suc m) password [] h k = refl
login_loop_fuel zero (suc m) password (c ∷ typed) h k = absurd (omega arith)
login_loop_fuel (suc n) zero password [] h k = refl
login_loop_fuel (suc n) zero password (c ∷ typed) h k = absurd (omega arith)
login_loop_fuel (suc n) (suc m) password typed h k = elim (read_password-cases typed) [
  | inl ended ↦ rw (login_loop, ended) refl
  | inr ((line, rest), read, shorter) ↦
      rw (login_loop, read)
        (ap
          (λ (r : Option (Option (List ℕ))).
            elim (equal_string password (chop line)) as (λ _. Option (Option (List ℕ))) [
              | none ↦ none
              | some right ↦ elim right as (λ _. Option (Option (List ℕ))) [
                | true ↦ some (some rest)
                | false ↦ r
              ]
            ])
          (login_loop_fuel n m password rest (omega arith) (omega arith)))
]

module _ (text : List ℕ) (t : IsText text) (behind_password : List ℕ) where
  -- The loop passes over the wrong lines and stops at the first right one.
  login_loop_lem :
      (fuel : ℕ) (wrong : List (List ℕ)) (rest : List ℕ)
      → length (typed_lines wrong (text ++ 10 ∷ rest)) ≤ fuel
      → All (IsWrong text) wrong
      → login_loop fuel (text ++ 0 ∷ behind_password) (typed_lines wrong (text ++ 10 ∷ rest))
        ≡ some (some rest)
  unfolding login_loop
  login_loop_lem zero [] rest enough w = absurd (omega (arith, length-append text (10 ∷ rest)))
  login_loop_lem zero (line ∷ wrong) rest enough w =
      absurd (omega (arith, length-append line (10 ∷ typed_lines wrong (text ++ 10 ∷ rest))))
  login_loop_lem (suc fuel) [] rest enough w =
      rw
        (
          login_loop,
          read_password-line text rest t,
          chop-append text 10,
          equal_string_lem text behind_password text t.no_nul t.no_nul,
          same_text_refl text,
        )
        refl
  login_loop_lem (suc fuel) (line ∷ wrong) rest enough w =
      rw
        (
          login_loop,
          read_password-line line (typed_lines wrong (text ++ 10 ∷ rest)) w.0.0,
          chop-append line 10,
          equal_string_lem text behind_password line t.no_nul w.0.0.no_nul,
          w.0.1,
        )
        (login_loop_lem fuel wrong rest
          (omega (arith, length-append line (10 ∷ typed_lines wrong (text ++ 10 ∷ rest)), enough))
          w.1)

-- On an image of bytes, `passwd` of a text of at most 18 bytes without NULs and newlines, typed with
-- its newline, is defined, stores the text, and leaves the input behind the newline. `login` after it
-- is defined: it refuses every line of another such text, ends at the first line of the stored text,
-- and leaves the input behind that.
pub pwd-login :
    (fs : FileSystem) (text : List ℕ) (wrong : List (List ℕ)) (left rest : List ℕ)
    → ((p : ℕ) → fs.disk p < 256)
    → AreBytes text
    → IsText text
    → All (IsWrong text) wrong
    → (fs' : FileSystem) × (pwd (text ++ 10 ∷ left) fs ≡ ok left fs')
      × (login (typed_lines wrong (text ++ 10 ∷ rest)) fs' ≡ ok (some rest) fs')
unfolding pwd login copy_password
pwd-login fs text wrong left rest image bytes t w =
    let g = load_group_desc fs.disk in
    let g_fits = load_group_desc-Fits fs.disk image in
    let tail = behind (length text + 1) g.password in
    let g' : GroupDesc = record g { password = text ++ 0 ∷ tail } in
    let fits : GroupDescFits g' = record {
      bg_volume_name = g_fits.bg_volume_name;
      bg_block_bitmap = g_fits.bg_block_bitmap;
      bg_inode_bitmap = g_fits.bg_inode_bitmap;
      bg_inode_table = g_fits.bg_inode_table;
      bg_free_blocks_count = g_fits.bg_free_blocks_count;
      bg_free_inodes_count = g_fits.bg_free_inodes_count;
      bg_used_dirs_count = g_fits.bg_used_dirs_count;
      password = omega (
        arith,
        length-append text (0 ∷ tail),
        length-behind (length text + 1) g.password,
        g_fits.password,
        t.short,
      );
      bg_pad = g_fits.bg_pad;
      texts = (
        g_fits.texts.0,
        append-AreBytes text (0 ∷ tail) bytes
            (omega arith, behind-AreBytes (length text + 1) g.password g_fits.texts.1),
        g_fits.texts.2,
      );
    } in
    (
      record fs { disk = update_group_desc g' fs.disk },
      rw
          (
            read_password-line text left t,
            chop-append text 10,
            le→leb (length text + 1) 20 (omega (arith, t.short)),
          )
          refl,
      rw
          (
            (update_group_desc_lem fs.disk g' fits).0,
            login_loop_lem text t tail (length (typed_lines wrong (text ++ 10 ∷ rest))) wrong rest
                (omega arith) w,
          )
          refl,
    )
