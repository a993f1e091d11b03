-- ===== src/Fs/Directory/Append.antt =====
-- `append_dir_entry` of lab3/3.c on a block that holds a list of files.
use xjtu_oslab.Base.{sym, false, ◌==◌, inl}
use xjtu_oslab.Fs.Directory.{DirEntry, encode_dir_entry, put, string_of}
use xjtu_oslab.Fs.Directory.Agreement.{Agree, put-Written, Written-Agree, Written-part}
use xjtu_oslab.Base.{
  sym, ℕ, zero, suc, ◌+◌, ◌≤◌, ◌<◌, ◌≡◌, refl, arith, List, [], ◌∷◌, ◌++◌, some, false, ◌==◌,
  length, All, inl, ap, ◌∙◌,
}
use xjtu_oslab.Fs.Bytes.{to_le, from_le, front, behind}
use xjtu_oslab.Fs.Bytes.Laws.{from_le-to_le}
use xjtu_oslab.Fs.Bytes.Slices.{behind-behind}
use xjtu_oslab.Fs.Directory.{DirEntry, encode_dir_entry, put, string_of}
use xjtu_oslab.Fs.Directory.Stored.{length-encode_dir_entry}
use xjtu_oslab.Fs.Directory.Search.{File}
use xjtu_oslab.Fs.Directory.Entries.{Stored, Free}
use xjtu_oslab.Fs.Directory.Agreement.{Agree, put-Written, Written-Agree, Written-part}

-- What `init_dir_entry_with_inode` makes of the file.
pub record IsNew (e : DirEntry) (f : File) : Type 0 where
  pub numbered : e.inode ≡ f.number
  pub measured : e.rec_len ≡ 7 + length f.file_name
  pub lengths : e.name_len ∷ e.file_type ∷ [] ≡ length f.file_name ∷ f.kind ∷ []
  pub rest : List ℕ
  pub named : e.name ≡ f.file_name ++ 0 ∷ 0 ∷ 0 ∷ rest
  pub whole : length e.name ≡ 255
  pub in_use : 0 < f.number
  pub word : f.number < 65536
  pub text : All (λ b. 0 < b) f.file_name
  pub short : length f.file_name ≤ 243

front_name :
    (m : ℕ) (t zs ws : List ℕ) → m ≡ length t + 1 → front m ((t ++ 0 ∷ zs) ++ ws) ≡ t ++ 0 ∷ []
unfolding front
front_name zero t zs ws e = absurd (omega arith)
front_name (suc zero) [] zs ws e = refl
front_name (suc (suc m)) [] zs ws e = absurd (omega arith)
front_name (suc m) (x ∷ t) zs ws e = ap (◌∷◌ x) (front_name m t zs ws (omega arith))

behind_name :
    (m : ℕ) (t zs ws : List ℕ) → m ≡ length t + 1 → behind m ((t ++ 0 ∷ zs) ++ ws) ≡ zs ++ ws
unfolding behind
behind_name zero t zs ws e = absurd (omega arith)
behind_name (suc zero) [] zs ws e = refl
behind_name (suc (suc m)) [] zs ws e = absurd (omega arith)
behind_name (suc m) (x ∷ t) zs ws e = behind_name m t zs ws (omega arith)

pub string_of_lem : (t zs : List ℕ) → All (λ b. 0 < b) t → string_of (t ++ 0 ∷ zs) ≡ some t
unfolding string_of
string_of_lem [] zs h = refl
string_of_lem (x ∷ t) zs h = rw (string_of, used, string_of_lem t zs h.1) refl
  where
    used : (x == 0) ≡ false
    used = ground (arith, h.0)

-- Behind the last file, the whole entry is stored; the zeros behind its name are the free entry.
pub end_lem :
    (block : List ℕ) (z : ℕ) {e : DirEntry} {f : File}
    → IsNew e f
    → length block ≡ 512
    → z + 7 + length f.file_name ≤ 250
    → (block' : List ℕ) × (put block z (encode_dir_entry e) ≡ some block')
      × Stored block' z f (7 + length f.file_name)
      × Free block' (z + (7 + length f.file_name))
      × Agree block block' 0 z
unfolding encode_dir_entry to_le from_le front behind
end_lem block z {e} {f} n size fit =
    let len = length f.file_name in
    let zeros = 0 ∷ 0 ∷ n.rest in
    let bytes : length (encode_dir_entry e) ≡ 262 = length-encode_dir_entry e (record {
      inode = omega (arith, n.numbered, n.word);
      rec_len = omega (arith, n.measured, n.short);
      name = n.whole;
    }) in
    let (block', eq, w) = put-Written block z (encode_dir_entry e) (omega (arith, bytes)) in
    let behind_header : behind 6 (encode_dir_entry e) ≡ (f.file_name ++ 0 ∷ zeros) ++ 0 ∷ [] =
      ap (λ (l : List ℕ). l ++ 0 ∷ []) n.named in
    (
      block',
      eq,
      record {
        inside = omega (arith, w.same_length);
        numbered =
            ap from_le (Written-part 0 2 w (omega arith) (omega (arith, bytes)))
            ∙ from_le-to_le 2 e.inode (omega (arith, n.numbered, n.word))
            ∙ n.numbered;
        in_use = n.in_use;
        measured =
            ap from_le (Written-part 2 2 w (omega arith) (omega (arith, bytes)))
            ∙ from_le-to_le 2 e.rec_len (omega (arith, n.measured, n.short))
            ∙ n.measured;
        kinds = Written-part 4 2 w (omega arith) (omega (arith, bytes)) ∙ n.lengths;
        named =
            Written-part 6 (len + 1) w (omega arith) (omega (arith, bytes, n.short))
            ∙ ap (front (len + 1)) behind_header
            ∙ front_name (len + 1) f.file_name zeros (0 ∷ []) refl;
        text = n.text;
        short = omega (arith, n.short);
        fits = omega arith;
      },
      record {
        inside = omega (arith, w.same_length);
        unused = ap from_le (
            Written-part (7 + len) 2 w (omega arith) (omega (arith, bytes, n.short))
            ∙ ap (front 2) (
                sym (behind-behind 6 (len + 1) (7 + len) (encode_dir_entry e) (omega arith))
                ∙ ap (behind (len + 1)) behind_header
                ∙ behind_name (len + 1) f.file_name zeros (0 ∷ []) refl));
      },
      Written-Agree 0 z w (inl (omega arith)),
    )
