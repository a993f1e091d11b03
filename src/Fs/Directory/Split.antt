-- ===== src/Fs/Directory/Split.antt =====
-- `append_dir_entry` of lab3/3.c where an entry has room behind its name: the five writes.
use xjtu_oslab.Fs.Directory.Append.{IsNew, string_of_lem}
use xjtu_oslab.Base.{length-append, sym, ◌-◌, inl, inr}
use xjtu_oslab.Fs.Directory.{DirEntry, spare_room, string_of, split_entry}
use xjtu_oslab.Fs.Directory.Agreement.{
  Agree, Agree-narrow, Agree-trans, Stored-Agree, put-Written, Written-Agree, Written-kept,
}
use xjtu_oslab.Base.{
  sym, ℕ, ◌+◌, ◌-◌, ◌≤◌, ◌≡◌, refl, arith, List, [], ◌∷◌, ◌++◌, some, length, inl, inr, ap, ◌∙◌,
  ◌⊎◌,
}
use xjtu_oslab.Fs.Bytes.{to_le, from_le}
use xjtu_oslab.Fs.Bytes.Laws.{from_le-to_le}
use xjtu_oslab.Fs.Bytes.Slices.{slice}
use xjtu_oslab.Fs.Directory.{DirEntry, spare_room, string_of, split_entry}
use xjtu_oslab.Fs.Directory.Search.{File}
use xjtu_oslab.Fs.Directory.Entries.{Stored}
use xjtu_oslab.Fs.Directory.Agreement.{
  Agree, Agree-narrow, Agree-trans, Stored-Agree, put-Written, Written-Agree, Written-kept,
}

-- The bytes of the block after the entry `temp`, at `i`, has been split for the entry `e` of that name.
record Split (block block' : List ℕ) (i o : ℕ) (temp e : DirEntry) (name : List ℕ) : Type 0 where
  same_length : length block' ≡ length block
  before : Agree block block' 0 (i + 2)
  between : Agree block block' (i + 4) o
  after : (lo hi : ℕ) → o + 6 + length name ≤ lo → Agree block block' lo hi
  old_room : slice block' (i + 2) 2 ≡ to_le 2 (temp.name_len + 7)
  number : slice block' o 2 ≡ to_le 2 e.inode
  new_room : slice block' (o + 2) 2 ≡ to_le 2 (spare_room temp)
  kinds : slice block' (o + 4) 2 ≡ e.name_len ∷ e.file_type ∷ []
  named : slice block' (o + 6) (length name) ≡ name

split_entry-Split :
    (block : List ℕ) (i o : ℕ) (temp e : DirEntry) (text : List ℕ)
    → o ≡ i + (temp.name_len + 7)
    → string_of e.name ≡ some text
    → o + 6 + length (text ++ 0 ∷ []) ≤ length block
    → (block' : List ℕ) × (split_entry block i temp e ≡ some block')
      × Split block block' i o temp e (text ++ 0 ∷ [])
unfolding split_entry to_le
split_entry-Split block i o temp e text at is inside =
    let name : List ℕ = text ++ 0 ∷ [] in
    let (b1, e1, w1) =
      put-Written block (i + 2) (to_le 2 (temp.name_len + 7)) (omega (arith, at)) in
    let (b2, e2, w2) = put-Written b1 o (to_le 2 e.inode) (omega (arith, w1.same_length)) in
    let (b3, e3, w3) =
      put-Written b2 (o + 2) (to_le 2 (spare_room temp))
        (omega (arith, w1.same_length, w2.same_length)) in
    let (b4, e4, w4) =
      put-Written b3 (o + 4) (e.name_len ∷ e.file_type ∷ [])
        (omega (arith, w1.same_length, w2.same_length, w3.same_length)) in
    let (b5, e5, w5) =
      put-Written b4 (o + 6) name
        (omega (arith, w1.same_length, w2.same_length, w3.same_length, w4.same_length)) in
    let from4 : (lo hi : ℕ) → (hi ≤ o + 6) ⊎ (o + 6 + length name ≤ lo) → Agree b4 b5 lo hi =
      λ lo hi k. Written-Agree lo hi w5 (ground arith) in
    let from3 : (lo hi : ℕ) → (hi ≤ o + 4) ⊎ (o + 6 + length name ≤ lo) → Agree b3 b5 lo hi =
      λ lo hi k. Agree-trans (Written-Agree lo hi w4 (ground arith)) (from4 lo hi (ground arith)) in
    let from2 : (lo hi : ℕ) → (hi ≤ o + 2) ⊎ (o + 6 + length name ≤ lo) → Agree b2 b5 lo hi =
      λ lo hi k. Agree-trans (Written-Agree lo hi w3 (ground arith)) (from3 lo hi (ground arith)) in
    let from1 : (lo hi : ℕ) → (hi ≤ o) ⊎ (o + 6 + length name ≤ lo) → Agree b1 b5 lo hi =
      λ lo hi k. Agree-trans (Written-Agree lo hi w2 (ground arith)) (from2 lo hi (ground arith)) in
    let from0 : (lo hi : ℕ)
        → (hi ≤ i + 2) ⊎ (i + 4 ≤ lo)
        → (hi ≤ o) ⊎ (o + 6 + length name ≤ lo)
        → Agree block b5 lo hi =
      λ lo hi k l. Agree-trans (Written-Agree lo hi w1 (ground arith)) (from1 lo hi l) in
    (
      b5,
      rw (split_entry, sym at, e1, e2, e3, e4, is, e5) refl,
      record {
        same_length =
            w5.same_length ∙ w4.same_length ∙ w3.same_length ∙ w2.same_length ∙ w1.same_length;
        before = from0 0 (i + 2) (inl (omega arith)) (inl (omega (arith, at)));
        between = from0 (i + 4) o (inr (omega arith)) (inl (omega arith));
        after = λ lo hi k. from0 lo hi (inr (omega (arith, at))) (inr k);
        old_room = Written-kept 2 w1 refl (from1 (i + 2) (i + 2 + 2) (inl (omega (arith, at))));
        number = Written-kept 2 w2 refl (from2 o (o + 2) (inl (omega arith)));
        new_room = Written-kept 2 w3 refl (from3 (o + 2) (o + 2 + 2) (inl (omega arith)));
        kinds = Written-kept 2 w4 refl (from4 (o + 4) (o + 4 + 2) (inl (omega arith)));
        named = w5.here;
      },
    )

module _ {block : List ℕ} {i room : ℕ} {t : File} where
  -- Where an entry has room behind its name, that room goes to the new file.
  pub split_lem :
      (temp : DirEntry) {e : DirEntry} {f : File}
      → temp.name_len ≡ length t.file_name
      → temp.rec_len ≡ room
      → IsNew e f
      → length block ≡ 512
      → Stored block i t room
      → i + room ≤ 250
      → 7 + length f.file_name + (7 + length t.file_name) ≤ room
      → (block' : List ℕ) × (split_entry block i temp e ≡ some block')
        × Stored block' i t (7 + length t.file_name)
        × Stored block' (i + (7 + length t.file_name)) f (room - (7 + length t.file_name))
        × Agree block block' 0 i
        × Agree block block' (i + room) 512
  split_lem temp {e} {f} nl rl n size s low fit =
      let lt = length t.file_name in
      let o = i + (7 + lt) in
      let size_name = length-append f.file_name (0 ∷ []) in
      let spare : spare_room temp ≡ room - (7 + lt) = omega (arith, nl, rl) in
      let (block', eq, w) =
        split_entry-Split block i o temp e f.file_name (omega (arith, nl))
          (ap string_of n.named ∙ string_of_lem f.file_name (0 ∷ 0 ∷ n.rest) n.text)
          (omega (arith, size_name)) in
      (
        block',
        eq,
        Stored-Agree s (Agree-narrow i (i + 2) w.before (omega arith) (omega arith))
            (Agree-narrow (i + 4) (i + (7 + lt)) w.between (omega arith) (omega arith))
            (ap from_le w.old_room
              ∙ from_le-to_le 2 (temp.name_len + 7) (omega (arith, nl, s.short))
              ∙ omega (arith, nl))
            (omega arith),
        record {
          inside = omega (arith, w.same_length);
          numbered =
              ap from_le w.number
              ∙ from_le-to_le 2 e.inode (omega (arith, n.numbered, n.word))
              ∙ n.numbered;
          in_use = n.in_use;
          measured =
              ap from_le w.new_room ∙ from_le-to_le 2 (spare_room temp) (omega arith) ∙ spare;
          kinds = w.kinds ∙ n.lengths;
          named = ap (slice block' (o + 6)) (sym size_name) ∙ w.named;
          text = n.text;
          short = omega (arith, n.short);
          fits = omega (arith, fit);
        },
        Agree-narrow 0 i w.before (omega arith) (omega arith),
        w.after (i + room) 512 (omega (arith, size_name, fit)),
      )
