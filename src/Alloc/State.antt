-- ===== src/Alloc/State.antt =====
-- lab2/2-3.c, lines 7 to 119: the global state of the allocation simulator. A linked list is the
-- list of its nodes' contents, in order. Sizes and addresses are `int`s that never go negative in a
-- reachable state (Alloc/Invariant), and stand here as natural numbers.
use xjtu_oslab.Base.{◌≡◌, ℕ, ◌+◌, List, [], ◌∷◌, ltb, leb, if◌then◌else◌, ◌&&◌}

abbrev pub min_slice : ℕ
min_slice = 10

abbrev pub default_mem_size : ℕ
default_mem_size = 1024

-- `struct free_block_type`
pub record FreeBlock : Type 0 where
  pub size : ℕ
  pub start_addr : ℕ

-- `struct allocated_block`; its `process_name` is `PROCESS-` with the pid, and is only printed.
pub record AllocatedBlock : Type 0 where
  pub pid : ℕ
  pub size : ℕ
  pub start_addr : ℕ

-- `MA_FF`, `MA_BF` and `MA_WF`: the values 1, 2 and 3 of `ma_algorithm`
pub data Algorithm : Type 0 where
  first_fit best_fit worst_fit : Algorithm

-- The global variables.
pub record Mem : Type 0 where
  pub free_block : List FreeBlock
  pub allocated_block_head : List AllocatedBlock
  pub mem_size : ℕ
  pub ma_algorithm : Algorithm
  pub pid : ℕ
  pub flag : ℕ

-- The result of code that may step outside C: `undefined` is undefined behaviour.
pub data Result {ℓ} (A : Type ℓ) : Type ℓ where
  ok : A → Result A
  undefined : Result A

pub ok-injective {ℓ} : {A : Type ℓ} {a b : A} → ok a ≡ ok b → a ≡ b
ok-injective e = cc

unfoldable pub init_free_block : ℕ → List FreeBlock
init_free_block n = record { size = n; start_addr = 0 } ∷ []

-- The globals as `main` leaves them before its loop.
unfoldable pub initial : Mem
unfolding init_free_block
initial = record {
  free_block = init_free_block default_mem_size;
  allocated_block_head = [];
  mem_size = default_mem_size;
  ma_algorithm = first_fit;
  pid = 0;
  flag = 0;
}

-- Address `a` lies in the block of that size and start: 1 or 0.
abbrev pub within : ℕ → ℕ → ℕ → ℕ
within a start n = if leb start a && ltb a (start + n) then 1 else 0

abbrev pub free_at : ℕ → FreeBlock → ℕ
free_at a b = within a b.start_addr b.size

abbrev pub allocated_at : ℕ → AllocatedBlock → ℕ
allocated_at a b = within a b.start_addr b.size

abbrev pub free_size : FreeBlock → ℕ
free_size b = b.size

abbrev pub allocated_size : AllocatedBlock → ℕ
allocated_size b = b.size
