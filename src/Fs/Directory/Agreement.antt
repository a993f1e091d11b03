-- ===== src/Fs/Directory/Agreement.antt =====
-- Two directory blocks of lab3/3.c that agree on a part, and what a write leaves of the entries.
use xjtu_oslab.Base.{
  ◌⊎◌, inl, inr, ℕ, ◌+◌, ◌≤◌, ◌≡◌, refl, arith, List, ◌∷◌, ◌++◌, some, length, le→leb, ap, ◌∙◌, sym,
}
use xjtu_oslab.Fs.Bytes.{from_le, front, behind}
use xjtu_oslab.Fs.Bytes.Slices.{Written, Written-append, slice, slice-front, slice-behind}
use xjtu_oslab.Fs.Directory.{put}
use xjtu_oslab.Fs.Directory.Search.{File}
use xjtu_oslab.Fs.Directory.Entries.{Stored, Holds, end, next}

-- `block'` has the bytes of `block` from `lo` on, up to `hi`.
pub record Agree (block block' : List ℕ) (lo hi : ℕ) : Type 0 where
  pub same_length : length block' ≡ length block
  pub bytes : (p n : ℕ) → lo ≤ p → p + n ≤ hi → slice block' p n ≡ slice block p n

pub Agree-narrow :
    {block block' : List ℕ} {lo hi : ℕ} (lo' hi' : ℕ)
    → Agree block block' lo hi
    → lo ≤ lo'
    → hi' ≤ hi
    → Agree block block' lo' hi'
Agree-narrow lo' hi' a k l = record {
  same_length = a.same_length;
  bytes = λ p n x y. a.bytes p n (omega arith) (omega arith);
}

-- An entry with another room: the rest of its bytes is as it was.
pub Stored-Agree :
    {block block' : List ℕ} {i room room' : ℕ} {f : File}
    → Stored block i f room
    → Agree block block' i (i + 2)
    → Agree block block' (i + 4) (i + (7 + length f.file_name))
    → from_le (slice block' (i + 2) 2) ≡ room'
    → 7 + length f.file_name ≤ room'
    → Stored block' i f room'
Stored-Agree {i} {f} s a b m fits = record {
  inside = omega (arith, s.inside, a.same_length);
  numbered = ap from_le (a.bytes i 2 (omega arith) (omega arith)) ∙ s.numbered;
  in_use = s.in_use;
  measured = m;
  kinds = b.bytes (i + 4) 2 (omega arith) (omega arith) ∙ s.kinds;
  named = b.bytes (i + 6) (length f.file_name + 1) (omega arith) (omega arith) ∙ s.named;
  text = s.text;
  short = s.short;
  fits = fits;
}

pub Holds-Agree :
    {block block' : List ℕ} {i z : ℕ} {files : List File}
    → Holds block i files z
    → Agree block block' i 512
    → length block ≡ 512
    → Holds block' i files z
Holds-Agree {i} (end s) a size = end (record {
  inside = omega (arith, s.inside, a.same_length);
  unused = ap from_le (a.bytes i 2 (omega arith) (omega (arith, s.inside))) ∙ s.unused;
})
Holds-Agree {i} (next {room} {f} s h) a size =
    next
      (Stored-Agree s (Agree-narrow i (i + 2) a (omega arith) (omega (arith, s.inside)))
        (Agree-narrow (i + 4) (i + (7 + length f.file_name)) a (omega arith)
          (omega (arith, s.inside, s.short)))
        (ap from_le (a.bytes (i + 2) 2 (omega arith) (omega (arith, s.inside))) ∙ s.measured)
        s.fits)
      (Holds-Agree h (Agree-narrow (i + room) 512 a (omega arith) (omega arith)) size)

-- A write inside the block is defined.
pub put-Written :
    (block : List ℕ) (o : ℕ) (bs : List ℕ)
    → o + length bs ≤ length block
    → (block' : List ℕ) × (put block o bs ≡ some block') × Written block o bs block'
unfolding put
put-Written block o bs h = (
  front o block ++ (bs ++ behind (o + length bs) block),
  rw (le→leb _ _ h) refl,
  Written-append block o bs h,
)

pub Written-Agree :
    {block block' : List ℕ} {o : ℕ} {bs : List ℕ} (lo hi : ℕ)
    → Written block o bs block'
    → (hi ≤ o) ⊎ (o + length bs ≤ lo)
    → Agree block block' lo hi
Written-Agree lo hi w (inl left) = record {
  same_length = w.same_length;
  bytes = λ p n k l. w.apart p n (inl (omega arith));
}
Written-Agree lo hi w (inr right) = record {
  same_length = w.same_length;
  bytes = λ p n k l. w.apart p n (inr (omega arith));
}

pub Agree-trans : {a b c : List ℕ} {lo hi : ℕ} → Agree a b lo hi → Agree b c lo hi → Agree a c lo hi
Agree-trans h k = record {
  same_length = k.same_length ∙ h.same_length;
  bytes = λ p n x y. k.bytes p n x y ∙ h.bytes p n x y;
}

-- A part of what was written.
pub Written-part :
    {block block' bs : List ℕ} {o k : ℕ} (p n : ℕ)
    → Written block o bs block'
    → k ≡ o + p
    → p + n ≤ length bs
    → slice block' k n ≡ slice bs p n
Written-part {block'} {bs} {o} {k} p n w e h =
    ap (λ (j : ℕ). slice block' j n) e
    ∙ sym (slice-behind p n o block')
    ∙ sym (slice-front p n (length bs) (behind o block') h)
    ∙ ap (λ (l : List ℕ). slice l p n) w.here

-- What was written, after other writes that leave it.
pub Written-kept :
    {a b c bs : List ℕ} {o : ℕ} (n : ℕ)
    → Written a o bs b
    → n ≡ length bs
    → Agree b c o (o + n)
    → slice c o n ≡ bs
Written-kept {b} {o} n w e agree =
    agree.bytes o n (omega arith) (omega arith) ∙ ap (slice b o) e ∙ w.here

-- An entry in front of entries that have been changed.
pub next-Agree :
    {block block' : List ℕ} {i room z : ℕ} {t : File} {files : List File}
    → Stored block i t room
    → Agree block block' 0 (i + room)
    → Holds block' (i + room) files z
    → Holds block' i (t ∷ files) z
next-Agree {i} s agree h =
    next
      (Stored-Agree s (Agree-narrow i (i + 2) agree (omega arith) (omega (arith, s.fits)))
        (Agree-narrow (i + 4) _ agree (omega arith) (omega (arith, s.fits)))
        (ap from_le (agree.bytes (i + 2) 2 (omega arith) (omega (arith, s.fits))) ∙ s.measured)
        s.fits)
      h
