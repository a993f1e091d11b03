-- ===== src/Fs/Pointers/Rounds.antt =====
-- The fuel of `append_rounds` is enough.
use xjtu_oslab.Base.{
  ℕ, zero, suc, ◌+◌, ◌-◌, ◌≤◌, ◌≡◌, refl, Bool, true, false, ◌==◌, ltb, ltb→lt, leb, arith,
}
use xjtu_oslab.Fs.State.{FileSystem, Run, ok, undefined, M, and_then}
use xjtu_oslab.Fs.Space.{new_block}
use xjtu_oslab.Fs.Directory.{DirEntry, append_dir_entry}
use xjtu_oslab.Fs.Pointers.{append_rounds}

and_then_cong :
    {A B : Type 0} (r : Run A) (f g : A → M B)
    → ((a : A) (fs : FileSystem) → f a fs ≡ g a fs)
    → and_then r f ≡ and_then r g
and_then_cong (ok a fs) f g h = h a fs
and_then_cong undefined f g h = refl

cond_cong :
    {A : Type 0} (b : Bool) (m n m' n' : M A) (fs : FileSystem)
    → (b ≡ true → m fs ≡ m' fs)
    → (b ≡ false → n fs ≡ n' fs)
    → (elim b as (λ _. M A) [ true ↦ m | false ↦ n ]) fs
      ≡ (elim b as (λ _. M A) [ true ↦ m' | false ↦ n' ]) fs
cond_cong true m n m' n' fs h k = h refl
cond_cong false m n m' n' fs h k = k refl

-- The rounds from `sb` on, and one more.
abbrev pub rounds_left : ℕ → ℕ → ℕ
rounds_left sb blocks = (blocks - sb) + (7 - sb) + 1

-- With fuel for `rounds_left` rounds or more, the result does not depend on the fuel; the caller gives
-- as much for `sb = 0`.
pub append_rounds_fuel :
    (n m sb blocks : ℕ) (e : DirEntry) (target : ℕ) (fs : FileSystem)
    → rounds_left sb blocks ≤ n
    → rounds_left sb blocks ≤ m
    → append_rounds n sb blocks e target fs ≡ append_rounds m sb blocks e target fs
unfolding append_rounds
append_rounds_fuel zero m sb blocks e target fs h k = absurd (omega arith)
append_rounds_fuel (suc n) zero sb blocks e target fs h k = absurd (omega arith)
append_rounds_fuel (suc n) (suc m) sb blocks e target fs h k =
    cond_cong (ltb sb blocks) _ _ _ _ fs
      (λ more.
        let below = ltb→lt sb blocks more in
        and_then_cong (append_dir_entry e target fs) _ _ λ r fs1.
          cond_cong (r.0 == 0) _ _ _ _ fs1
            (λ _.
              cond_cong (sb == blocks - 1) _ _ _ _ fs1
                (λ last.
                  cond_cong (blocks == 7) _ _ _ _ fs1 (λ _. refl)
                    λ _.
                      cond_cong (leb 7 sb) _ _ _ _ fs1 (λ _. refl)
                        λ low.
                          let inside : sb ≤ 6 = ground arith in
                          and_then_cong (new_block fs1) _ _ λ _ fs2.
                            append_rounds_fuel n m (sb + 1) (blocks + 1) r.1 target fs2
                              (omega arith) (omega arith))
                (λ _.
                  append_rounds_fuel n m (sb + 1) blocks r.1 target fs1 (omega arith)
                    (omega arith)))
            (λ _. refl))
      (λ _. refl)
