-- ===== src/FileTransfer/Files/Directories.antt =====
-- `mkdir_recursive` of lib/edgehog_device/file_transfer/filesystem_utils.c.
use edgehog_zephyr_device.Prelude.{
  ℕ, ◌==◌, ◌≡◌, ◌⊎◌, inl, inr, refl, sym, ap, ◌∙◌, leb, Bool, true, false, List, [], ◌∷◌, ◌++◌,
  append_assoc, length, Option, none, some, if◌then◌else◌, Bool-cases, arith,
}
use edgehog_zephyr_device.FileTransfer.Files.Interface.{
  max_path_size, Status, ok, name_too_long, io_error, is_found, FileSystem, IsLawful,
}
pub mod Made

-- What stands before the last separator, which `strrchr` finds.
unfoldable pub parent : List ℕ → Option (List ℕ)
parent [] = none
parent (c ∷ path) = extend (parent path)
  where
    extend : Option (List ℕ) → Option (List ℕ)
    extend none = if c == b'/' then some [] else none
    extend (some p) = some (c ∷ p)

module _ {S : Type 0} (fs : FileSystem S) where
  -- A directory that `fs_stat` does not find is created.
  unfoldable pub ensure : List ℕ → S → Bool × S
  ensure path s = if is_found (fs.stat path s) then (true, s) else fs.mkdir path s

  -- The loop over `ptr` with the directory at its end: `done` is `temp_path` up to `ptr`.
  unfoldable pub make_components : List ℕ → List ℕ → S → Bool × S
  make_components done [] s = ensure done s
  make_components done (c ∷ rest) s =
      let (made, s') = ensure done s in
      let beyond = make_components (done ++ c ∷ []) rest s' in
      let onward = make_components (done ++ c ∷ []) rest s in
      if c == b'/' then (if made then beyond else (false, s')) else onward

  -- The loop starts behind the first byte.
  unfoldable pub make_directories : List ℕ → S → Bool × S
  make_directories [] s = ensure [] s
  make_directories (c ∷ rest) s = make_components (c ∷ []) rest s

  unfoldable pub status_of : Bool × S → Status × S
  status_of (true, s) = (ok, s)
  status_of (false, s) = (io_error, s)

  unfoldable pub mkdir_target : Option (List ℕ) → S → Status × S
  mkdir_target none s = (ok, s)
  mkdir_target (some target) s = status_of (make_directories target s)

  unfoldable pub mkdir_recursive : List ℕ → Bool → S → Status × S
  mkdir_recursive path is_file_path s =
      if leb max_path_size (length path)
      then (name_too_long, s)
      else mkdir_target (if is_file_path then parent path else some path) s
