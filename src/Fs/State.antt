-- ===== src/Fs/State.antt =====
-- lab3/3.c, lines 55 to 77: the file types, the globals that stay in memory, and the outcome of a
-- function that works on them and on the image.
pub mod Keeps
use xjtu_oslab.Base.{ℕ, ◌+◌, List, Option, none, some}
use xjtu_oslab.Fs.Bytes.{Bytes}

pub data FileType : Type 0 where
  ft_unknown ft_reg_file ft_dir ft_chrdev ft_blkdev ft_fifo ft_sock ft_symlink : FileType

abbrev pub file_type_code : FileType → ℕ
file_type_code ft_unknown = 0
file_type_code ft_reg_file = 1
file_type_code ft_dir = 2
file_type_code ft_chrdev = 3
file_type_code ft_blkdev = 4
file_type_code ft_fifo = 5
file_type_code ft_sock = 6
file_type_code ft_symlink = 7

abbrev pub fopen_table_max : ℕ
fopen_table_max = 16

-- A line of a directory listing: the name, the code of the type, the permissions and the inode's
-- size and times, which are printed as dates.
pub record Row : Type 0 where
  pub name : List ℕ
  pub type_letter : ℕ
  pub rights : ℕ
  pub size : ℕ
  pub ctime : ℕ
  pub atime : ℕ
  pub mtime : ℕ

-- What is printed, apart from the messages: a byte of a file, or a line of a listing.
pub data Output : Type 0 where
  byte : ℕ → Output
  row : Row → Output

-- `printed` is the output, the last first. `disk` is the file `fp`; `clock` gives the values that `time(NULL)` returns, one after the other,
-- and `asked` counts the calls.
pub record FileSystem : Type 0 where
  pub disk : Bytes
  pub fopen_table : List ℕ
  pub last_alloc_inode : ℕ
  pub last_alloc_block : ℕ
  pub current_dir : ℕ
  pub current_path : List ℕ
  pub clock : ℕ → ℕ
  pub asked : ℕ
  pub printed : List Output

-- `undefined` is undefined behaviour, such as an access behind a buffer, or a loop without end.
pub data Run {ℓ} (A : Type ℓ) : Type ℓ where
  ok : A → FileSystem → Run A
  undefined : Run A

abbrev pub M {ℓ} : Type ℓ → Type ℓ
M A = FileSystem → Run A

abbrev pub pure {ℓ} : {A : Type ℓ} → A → M A
pure a fs = ok a fs

abbrev pub and_then {ℓ κ} : {A : Type ℓ} {B : Type κ} → Run A → (A → M B) → Run B
and_then (ok a fs) f = f a fs
and_then undefined f = undefined

infixl 5 ◌>>=◌ ◌>>◌
abbrev pub ◌>>=◌ {ℓ κ} : {A : Type ℓ} {B : Type κ} → M A → (A → M B) → M B
◌>>=◌ m f fs = and_then (m fs) f

abbrev pub ◌>>◌ {ℓ} : {B : Type ℓ} → M (Unit {0}) → M B → M B
m >> k = m >>= λ _. k

-- A load and an update of the image.
abbrev pub gets {ℓ} : {A : Type ℓ} → (Bytes → A) → M A
gets f fs = ok (f fs.disk) fs

abbrev pub puts : (Bytes → Bytes) → M (Unit {0})
puts f fs = ok tt (record fs { disk = f fs.disk })

-- `time(NULL)`
unfoldable pub time : M ℕ
time fs = ok (fs.clock fs.asked) (record fs { asked = fs.asked + 1 })

abbrev pub stuck {ℓ} : {A : Type ℓ} → M A
stuck fs = undefined

-- A result that may be undefined.
abbrev pub lift {ℓ} : {A : Type ℓ} → Option A → M A
lift none fs = undefined
lift (some a) fs = ok a fs
