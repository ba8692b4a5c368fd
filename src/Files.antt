-- ===== src/Files.antt =====
-- fileops.go, manageops.go: what the file operations share. They act on a disk, a type `D` of the
-- model's user: `Host` has the calls into the operating system that the code makes, each with the
-- disk that it leaves. An operation is a function from the disk to what it returns and the disk that
-- it leaves; a permission mode is a number.
pub mod Steps
pub mod Manage
pub mod Edit
pub mod Base64
pub mod Transfer
pub mod Write
use remote_cli.Common.{
  ℕ, ◌+◌, ◌*◌, ◌-◌, ◌^◌, Bool, true, false, not, ◌&&◌, ◌||◌, Option, none, some, List, [], ◌∷◌,
  String, if◌then◌else◌, ◌==◌, leb, ltb, map,
}
use remote_cli.ReadOnly.{Process, guard_read_only, trim_left}
use remote_cli.Sandbox.{Name, FilePath, Links, Validated, valid, validate_path, validate_link_path}

-- An error: a refusal by the code, by the sandbox, or by the operating system (`os.IsNotExist`, or
-- another one by its number).
pub data FileError : Type 0 where
  read_only_mode : String → FileError
  bad_path : Validated → FileError
  refused : String → FileError
  refused_edit : ℕ → String → FileError
  not_exist : FileError
  os_failed : ℕ → FileError

pub data Outcome (A : Type 0) : Type 0 where
  done : A → Outcome A
  failed : FileError → Outcome A

-- What `os.FileInfo` says of a path.
pub data FileKind : Type 0 where
  regular directory symlink other : FileKind

pub record Info : Type 0 where
  pub kind : FileKind
  pub perm : ℕ
  pub size : ℕ

unfoldable pub is_dir : Info → Bool
is_dir info = elim (info.kind) [ directory ↦ true | _ ↦ false ]

unfoldable pub is_regular : Info → Bool
is_regular info = elim (info.kind) [ regular ↦ true | _ ↦ false ]

unfoldable pub is_symlink : Info → Bool
is_symlink info = elim (info.kind) [ symlink ↦ true | _ ↦ false ]

-- The calls of the packages os, io and filepath that the operations make, and `make([]byte, n)`,
-- which panics for a size that cannot be allocated.
pub record Host (D : Type 0) : Type 0 where
  pub links : D → Links
  pub lstat : D → FilePath → Outcome Info
  pub stat : D → FilePath → Outcome Info
  pub read_dir : D → FilePath → Outcome (List Name)
  pub walk_dir : D → FilePath → List FilePath
  pub walk : D → FilePath → List (Outcome (List Name × Info))
  pub remove : D → FilePath → Outcome Unit × D
  pub remove_all : D → FilePath → Outcome Unit × D
  pub rename : D → FilePath → FilePath → Outcome Unit × D
  pub readlink : D → FilePath → Outcome (List ℕ)
  pub make_link : D → List ℕ → FilePath → Outcome Unit × D
  pub mkdir : D → FilePath → ℕ → Outcome Unit × D
  pub mkdir_all : D → FilePath → ℕ → Outcome Unit × D
  pub open_read : D → FilePath → Outcome Unit
  pub read_file : D → FilePath → Outcome (List ℕ)
  pub write_file : D → FilePath → List ℕ → ℕ → Outcome Unit × D
  pub open_append : D → FilePath → ℕ → Outcome Unit × D
  pub open_truncate : D → FilePath → ℕ → Outcome Unit × D
  pub write : D → FilePath → List ℕ → Outcome ℕ × D
  pub copy : D → FilePath → FilePath → Outcome ℕ × D
  pub make_bytes : ℕ → Outcome Unit

abbrev pub Op : Type 0 → Type 0 → Type 0
Op D A = D → Outcome A × D

unfoldable pub go_on : {D A B : Type 0} → (A → Op D B) → Outcome A × D → Outcome B × D
go_on k (done a, d) = k a d
go_on k (failed e, d) = (failed e, d)

infixl 5 ◌>>=◌
abbrev pub ◌>>=◌ : {D A B : Type 0} → Op D A → (A → Op D B) → Op D B
(m >>= k) d = go_on k (m d)

abbrev pub return : {D A : Type 0} → A → Op D A
return a d = (done a, d)

abbrev pub fail : {D A : Type 0} → FileError → Op D A
fail e d = (failed e, d)

-- A look at the disk.
abbrev pub look : {D A : Type 0} → (D → Outcome A) → Op D A
look f d = (f d, d)

-- The error return of a guard.
unfoldable pub require : Bool → FileError → Outcome Unit
require ok e = if ok then done tt else failed e

unfoldable pub allowed : Option String → Outcome Unit
allowed none = done tt
allowed (some op) = failed (read_only_mode op)

unfoldable pub checked : Validated → Outcome FilePath
checked (valid abs) = done abs
checked why = failed (bad_path why)

-- `strconv.ParseUint(mode, 8, 32)`, behind its first digit; `at` is the value of the digits read.
unfoldable pub octal_from : ℕ → List ℕ → Option ℕ
octal_from at [] = some at
octal_from at (c ∷ s) =
    let next = at * 8 + (c - b'0') in
    let rest = octal_from next s in
    if leb b'0' c && leb c b'7' && ltb next (2 ^ 32) then rest else none

unfoldable pub parse_octal : List ℕ → Option ℕ
parse_octal [] = none
parse_octal (c ∷ s) = octal_from 0 (c ∷ s)

unfoldable pub blank : List ℕ → Bool
blank s = elim (trim_left s) [ [] ↦ true | _ ∷ _ ↦ false ]

-- 0644
abbrev pub default_mode : ℕ
default_mode = 420

-- `parseMode`
unfoldable pub parse_mode : List ℕ → Outcome ℕ
parse_mode mode =
    if blank mode
    then done default_mode
    else elim (parse_octal mode) [ some v ↦ done v | none ↦ failed (refused "invalid mode") ]
