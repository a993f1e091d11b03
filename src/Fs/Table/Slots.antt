-- ===== src/Fs/Table/Slots.antt =====
-- The slots of the table of open files of lab3/3.c.
use xjtu_oslab.Base.{
  ℕ, suc, ◌≡◌, refl, arith, List, [], ◌∷◌, none, some, false, ◌==◌, length, Bool-cases, ◌⊎◌, inl,
  inr, ap,
}
use xjtu_oslab.Fs.State.{fopen_table_max}
use xjtu_oslab.Fs.Directory.{is_open}
use xjtu_oslab.Fs.Commands.Opened.{replace_first}

-- No inode stands in two slots; 0 is a free slot.
abbrev pub Distinct : List ℕ → Type 0
Distinct [] = Unit {0}
Distinct (f ∷ table) = ((f ≡ 0) ⊎ (is_open f table ≡ false)) × Distinct table

pub record IsTable (table : List ℕ) : Type 0 where
  pub slots : length table ≡ fopen_table_max
  pub distinct : Distinct table

-- An inode that may be put into a slot: it is in none, or it is 0.
abbrev pub IsNew : ℕ → List ℕ → Type 0
IsNew new table = (new ≡ 0) ⊎ (is_open new table ≡ false)

IsNew-tail : (new f : ℕ) (table : List ℕ) → IsNew new (f ∷ table) → IsNew new table
unfolding is_open
IsNew-tail new f table (inl e) = inl e
IsNew-tail new f table (inr e) = inr (ground (arith, e))

pub record Replaced (old new : ℕ) (table table' : List ℕ) : Type 0 where
  pub equation : replace_first old new table ≡ some table'
  pub same_length : length table' ≡ length table
  pub distinct : Distinct table'
  pub others : (g : ℕ) → (new == g) ≡ false → is_open g table ≡ false → is_open g table' ≡ false

other_slot : (new f : ℕ) (table : List ℕ) → IsNew new (f ∷ table) → (f ≡ 0) ⊎ ((new == f) ≡ false)
unfolding is_open
other_slot new f table (inl e) = elim (Bool-cases (f == 0)) [
  | inl same ↦ inl (ground (arith, same))
  | inr used ↦ inr (ground (arith, used, e))
]
other_slot new f table (inr e) = inr (ground (arith, e))

-- Where a slot is found, the table stays one.
pub replace_first-Replaced :
    (old new : ℕ) (table : List ℕ)
    → Distinct table
    → IsNew new table
    → (replace_first old new table ≡ none) ⊎ ((table' : List ℕ) × Replaced old new table table')
unfolding replace_first is_open
replace_first-Replaced old new [] d fresh = inl refl
replace_first-Replaced old new (f ∷ table) d fresh = elim (Bool-cases (f == old)) [
  | inl same ↦ inr (
    new ∷ table,
    record {
      equation = rw (replace_first, same) refl;
      same_length = refl;
      distinct = (IsNew-tail new f table fresh, d.1);
      others = λ g ne e. ground (arith, ne, e);
    },
  )
  | inr other ↦ elim (replace_first-Replaced old new table d.1 (IsNew-tail new f table fresh)) [
    | inl e ↦ inl (rw (replace_first, other, e) refl)
    | inr (table', r) ↦ inr (
      f ∷ table',
      record {
        equation = rw (replace_first, other, r.equation) refl;
        same_length = ap suc r.same_length;
        distinct = (
          elim d.0 [
            | inl zero_slot ↦ inl zero_slot
            | inr once ↦ elim (other_slot new f table fresh) [
              | inl zero_slot ↦ inl zero_slot
              | inr ne ↦ inr (r.others f ne once)
            ]
          ],
          r.distinct,
        );
        others = λ g ne e. elim (Bool-cases (f == g)) [
          | inl same ↦ absurd (ground (arith, same, e))
          | inr other' ↦ rw (is_open, other') (r.others g ne (ground (arith, other', e)))
        ];
      },
    )
  ]
]
