-- ===== src/Fs/Table/Opening.antt =====
-- The operations of lab3/3.c that change the table of open files, or the current directory.
use xjtu_oslab.Fs.Commands.Opened.{may_open, stamp_access, open_slot, open_file, close_slot}
use xjtu_oslab.Base.{Bool, true, false}
use xjtu_oslab.Fs.State.{M, pure, gets, ◌>>=◌, ◌>>◌}
use xjtu_oslab.Fs.Commands.{permission_denied, already_open}
use xjtu_oslab.Fs.Commands.Opened.{may_open}
use xjtu_oslab.Base.{zero, suc, ◌∙◌, sym, inl, inr}
use xjtu_oslab.Base.{
  ℕ, ◌≡◌, refl, List, Bool, true, false, ◌==◌, ◌^◌, ◌%◌, ◌/◌, inl, inr, ap, ◌∙◌, sym, replicate,
}
use mathlib.Core.Path.{subst}
use xjtu_oslab.Fs.Disk.{Inode, load_inode_table, update_group_desc}
use xjtu_oslab.Fs.State.{
  FileSystem, Run, ok, undefined, M, ft_dir, ft_reg_file, and_then, pure, gets, ◌>>=◌, ◌>>◌,
}
use xjtu_oslab.Fs.State.Keeps.{
  Post, Keeps, IsStable, Keeps-bind, Keeps-pure, Keeps-gets, Keeps-reads, Keeps-lift, Keeps-cond,
  Keeps-puts,
}
use xjtu_oslab.Fs.Directory.{is_open}
use xjtu_oslab.Fs.Create.{same_name, dot, dotdot}
use xjtu_oslab.Fs.Setup.{
  chop, disk_size, clear_sectors, read_password, new_group_desc, root_name, initialize_memory,
  initialize_disk, format,
}
use xjtu_oslab.Fs.Commands.{
  Reply, done, not_found, not_directory, already_open, permission_denied, enter, change_dir,
  parent_path, child_path, cd,
}
use xjtu_oslab.Fs.Table.Files.{new_dir_entry-Keeps}
use xjtu_oslab.Fs.Table.Commands.{look_up-Keeps, stamp_access-Keeps}
use xjtu_oslab.Fs.Table.Slots.{Distinct, IsTable, replace_first-Replaced}

abbrev pub HasTable : FileSystem → Type 0
HasTable fs = IsTable fs.fopen_table

pub HasTable-IsStable : IsStable HasTable
HasTable-IsStable = record {
  on_disk = λ fs d p. p;
  on_asked = λ fs n p. p;
  on_printed = λ fs l p. p;
}

same_table-IsStable : (table : List ℕ) → IsStable (λ fs. fs.fopen_table ≡ table)
same_table-IsStable table = record {
  on_disk = λ fs d p. p;
  on_asked = λ fs n p. p;
  on_printed = λ fs l p. p;
}

open_slot-Post :
    (inode_id : ℕ) (fs : FileSystem)
    → HasTable fs
    → is_open inode_id fs.fopen_table ≡ false
    → Post HasTable (open_slot inode_id fs)
unfolding open_slot
open_slot-Post inode_id fs h free =
    elim (replace_first-Replaced 0 inode_id fs.fopen_table h.distinct (inr free)) [
      | inl full ↦ record { holds = rw (open_slot, full) h }
      | inr (table', r) ↦ record {
        holds =
            rw (open_slot, r.equation)
              (record { slots = r.same_length ∙ h.slots; distinct = r.distinct });
      }
    ]

pub close_slot-Keeps : (inode_id : ℕ) → Keeps HasTable (close_slot inode_id)
unfolding close_slot
close_slot-Keeps inode_id = record {
  kept = λ fs h. elim (replace_first-Replaced inode_id 0 fs.fopen_table h.distinct (inl refl)) [
    | inl none_open ↦ record { holds = rw (close_slot, none_open) h }
    | inr (table', r) ↦ record {
      holds =
          rw (close_slot, r.equation)
            (record { slots = r.same_length ∙ h.slots; distinct = r.distinct });
    }
  ];
}

enter-Keeps : (inode_id : ℕ) (path : List ℕ) → Keeps HasTable (enter inode_id path)
unfolding enter
enter-Keeps inode_id path = record { kept = λ fs h. record { holds = h } }

change_dir-Keeps : (name : List ℕ) (inode_id : ℕ) → Keeps HasTable (change_dir name inode_id)
unfolding change_dir
change_dir-Keeps name inode_id = Keeps-cond (same_name name dot) (Keeps-pure done) (
    Keeps-bind _ _ (Keeps-reads (λ fs. fs.current_path)) λ path.
      Keeps-cond (same_name name dotdot) (enter-Keeps inode_id (parent_path path))
        (Keeps-bind _ _ (Keeps-lift (child_path path name)) (enter-Keeps inode_id)))

pub cd-Keeps : (text : List ℕ) → Keeps HasTable (cd text)
unfolding cd
cd-Keeps text = Keeps-bind _ _ (look_up-Keeps HasTable-IsStable (chop text) ft_dir) λ inode_id.
    Keeps-cond (inode_id == 0) (Keeps-pure not_found) (
      Keeps-bind _ _ (Keeps-gets (load_inode_table inode_id)) λ inode.
        Keeps-cond (inode.i_mode / 2 ^ 8 == 2) (change_dir-Keeps (chop text) inode_id)
          (Keeps-pure not_directory))

pub initialize_disk-Keeps : (typed : List ℕ) → Keeps HasTable (initialize_disk typed)
unfolding initialize_disk
initialize_disk-Keeps typed =
    Keeps-bind _ _ (Keeps-puts HasTable-IsStable (clear_sectors disk_size)) λ _.
      Keeps-bind _ _ (Keeps-lift (read_password typed)) λ (line, rest).
        Keeps-bind _ _ (Keeps-lift (new_group_desc line)) λ g.
          Keeps-bind _ _ (Keeps-puts HasTable-IsStable (update_group_desc g)) λ _.
            Keeps-bind _ _ (new_dir_entry-Keeps HasTable-IsStable root_name ft_dir)
              λ _. Keeps-pure rest

zeros-Distinct : (n : ℕ) → Distinct (replicate n 0)
zeros-Distinct zero = tt
zeros-Distinct (suc n) = (inl refl, zeros-Distinct n)

pub zeros-IsTable : IsTable (replicate 16 0)
zeros-IsTable = record { slots = refl; distinct = zeros-Distinct 16 }

pub format-Keeps : (typed : List ℕ) → Keeps HasTable (format typed)
unfolding format initialize_memory
format-Keeps typed = record {
  kept = λ fs h. (initialize_disk-Keeps typed).kept (initialize_memory fs) zeros-IsTable;
}

-- What `open` does with the state that its test has read.
opening-Post :
    (inode_id : ℕ) (fs : FileSystem)
    → HasTable fs
    → is_open inode_id fs.fopen_table ≡ false
    → (inode : Inode) → Post HasTable ((stamp_access inode_id inode >> open_slot inode_id) fs)
opening-Post inode_id fs h free inode =
    on_run (stamp_access inode_id inode fs)
      ((stamp_access-Keeps (same_table-IsStable fs.fopen_table) inode_id inode).kept fs refl)
  where
    on_run :
        (r : Run (Unit {0}))
        → Post (λ fs'. fs'.fopen_table ≡ fs.fopen_table) r
        → Post HasTable (and_then r (λ _. open_slot inode_id))
    on_run (ok tt fs') p =
        open_slot-Post inode_id fs' (subst IsTable (sym p.holds) h)
          (ap (is_open inode_id) p.holds ∙ free)
    on_run undefined p = record { holds = tt }

-- By the permission, and then by the test whether the file is open.
permission-Post :
    (inode_id : ℕ) (fs : FileSystem) (may : Bool)
    → HasTable fs
    → is_open inode_id fs.fopen_table ≡ false
    → Post HasTable (
        (elim may as (λ _. M Reply) [
          | false ↦ pure permission_denied
          | true ↦ stamp_access inode_id (load_inode_table inode_id fs.disk) >> open_slot inode_id
        ])
          fs)
permission-Post inode_id fs false h free = record { holds = h }
permission-Post inode_id fs true h free =
    opening-Post inode_id fs h free (load_inode_table inode_id fs.disk)

test-Post :
    (inode_id : ℕ) (fs : FileSystem) (test : Bool)
    → HasTable fs
    → is_open inode_id fs.fopen_table ≡ test
    → Post HasTable (
        (elim test as (λ _. M Reply) [
          | true ↦ pure already_open
          | false ↦ gets (load_inode_table inode_id) >>= λ inode.
              elim (may_open (inode.i_mode % 2 ^ 8)) as (λ _. M Reply) [
                | false ↦ pure permission_denied
                | true ↦ stamp_access inode_id inode >> open_slot inode_id
              ]
        ])
          fs)
test-Post inode_id fs true h e = record { holds = h }
test-Post inode_id fs false h e =
    permission-Post inode_id fs (may_open ((load_inode_table inode_id fs.disk).i_mode % 2 ^ 8)) h e

pub open_file-Keeps : (text : List ℕ) → Keeps HasTable (open_file text)
unfolding open_file
open_file-Keeps text =
    Keeps-bind _ _ (look_up-Keeps HasTable-IsStable (chop text) ft_reg_file) λ inode_id.
      Keeps-cond (inode_id == 0) (Keeps-pure not_found)
        (record { kept = λ fs h. test-Post inode_id fs (is_open inode_id fs.fopen_table) h refl })
