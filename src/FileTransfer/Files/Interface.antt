-- ===== src/FileTransfer/Files/Interface.antt =====
-- The calls of the operating system's file system: `fs_stat`, `fs_mkdir`, `fs_statvfs`, and
-- `fs_opendir` with the calls of `fs_readdir` that follow it. The state is the operating system's.
use edgehog_zephyr_device.Prelude.{
  ℕ, ◌==◌, ◌&&◌, ◌≡◌, ◌⊎◌, Bool, true, false, List, [], ◌∷◌, Option,
}

-- MAX_PATH_SIZE
abbrev pub max_path_size : ℕ
max_path_size = 256

pub data EntryType : Type 0 where
  file directory : EntryType

-- `struct fs_dirent`
pub record Dirent : Type 0 where
  pub name : List ℕ
  pub type : EntryType
  pub size : ℕ

-- What a function of the file returns: 0, -ENAMETOOLONG, -EIO, or another negative number.
pub data Status : Type 0 where
  ok name_too_long io_error failed : Status

abbrev pub is_ok : Status → Bool
is_ok ok = true
is_ok _ = false

-- `fs_stat`: 0 with the entry, -ENOENT, or another error.
pub data Stat : Type 0 where
  found : Dirent → Stat
  no_entry : Stat
  stat_error : Stat

abbrev pub is_found : Stat → Bool
is_found (found e) = true
is_found _ = false

-- A directory that does not open, or the entries that `fs_readdir` gives and the result of its last
-- call, which is 0 at the end of the directory.
pub data Listing : Type 0 where
  closed : Listing
  listed : List Dirent → Status → Listing

-- `f_bfree` and `f_frsize` of `struct fs_statvfs`.
pub record Statvfs : Type 0 where
  pub bfree : ℕ
  pub frsize : ℕ

pub record FileSystem (S : Type 0) : Type 0 where
  pub stat : List ℕ → S → Stat
  pub mkdir : List ℕ → S → Bool × S
  pub list : List ℕ → S → Listing
  pub statvfs : List ℕ → S → Option Statvfs

-- What was there under a path with a type.
abbrev pub HasType : EntryType → Stat → Type 0
HasType type st = (e : Dirent) × (st ≡ found e) × (e.type ≡ type)

-- What `fs_mkdir` promises: a directory that it creates is there, no entry disappears, and an entry
-- behind it is a directory or was there before, with the same type.
pub record IsLawful {S : Type 0} (fs : FileSystem S) : Type 0 where
  pub mkdir_found :
      (p : List ℕ) (s : S) → (fs.mkdir p s).0 ≡ true → is_found (fs.stat p (fs.mkdir p s).1) ≡ true
  pub mkdir_keeps :
      (p q : List ℕ) (s : S)
      → is_found (fs.stat q s) ≡ true
      → is_found (fs.stat q (fs.mkdir p s).1) ≡ true
  pub mkdir_new :
      (p q : List ℕ) (s : S) (e : Dirent)
      → fs.stat q (fs.mkdir p s).1 ≡ found e
      → (e.type ≡ directory) ⊎ HasType e.type (fs.stat q s)

-- `strcmp(name, ".") == 0 || strcmp(name, "..") == 0`
unfoldable pub is_link : List ℕ → Bool
is_link (a ∷ []) = a == b'.'
is_link (a ∷ b ∷ []) = (a == b'.') && (b == b'.')
is_link _ = false
