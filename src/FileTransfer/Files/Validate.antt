-- ===== src/FileTransfer/Files/Validate.antt =====
-- The validation of the paths of a transfer, lib/edgehog_device/file_transfer/filesystem_utils.c.
use edgehog_zephyr_device.Prelude.{
  ℕ, ◌==◌, leb, Bool, true, false, not, ◌||◌, List, [], ◌∷◌, length, if◌then◌else◌,
}
use edgehog_zephyr_device.FileTransfer.Path.{is_valid_safe_path}
use edgehog_zephyr_device.FileTransfer.Files.Interface.{
  max_path_size, EntryType, file, directory, Dirent, is_ok, Stat, found, no_entry, stat_error,
  Listing, closed, listed, FileSystem, is_link,
}
use edgehog_zephyr_device.FileTransfer.Files.Directories.{mkdir_recursive}

-- The loop of `is_dir_empty`. An empty name is the end of the directory.
unfoldable pub all_links : List Dirent → Bool
all_links [] = true
all_links (e ∷ entries) =
    let others = all_links entries in
    if length e.name == 0 then true else if is_link e.name then others else false

unfoldable pub is_empty_listing : Listing → Bool
is_empty_listing closed = false
is_empty_listing (listed entries last) = all_links entries

-- A string that is missing, empty or too long for a path's buffer; a null pointer has no value here.
unfoldable pub is_no_path : List ℕ → Bool
is_no_path path = (length path == 0) || leb max_path_size (length path)

unfoldable pub is_type : EntryType → EntryType → Bool
is_type file file = true
is_type directory directory = true
is_type _ _ = false

module _ {S : Type 0} (fs : FileSystem S) where
  unfoldable pub is_dir_empty : List ℕ → S → Bool
  is_dir_empty destination s = is_empty_listing (fs.list destination s)

  -- `mkdir_recursive(..) == 0`
  unfoldable pub made : List ℕ → Bool → S → Bool × S
  made path is_file_path s =
      let (status, s') = mkdir_recursive fs path is_file_path s in (is_ok status, s')

  -- `is_valid_tar_destination`
  unfoldable pub is_valid_tar_destination : List ℕ → Stat → S → Bool × S
  is_valid_tar_destination destination (found e) s =
      if not (is_type e.type directory)
      then (false, s)
      else if not (is_dir_empty destination s)
      then (false, s)
      else (true, s)
  is_valid_tar_destination destination _ s = made destination false s

  -- `is_valid_file_destination`
  unfoldable pub is_valid_file_destination : List ℕ → Stat → S → Bool × S
  is_valid_file_destination destination (found e) s = (false, s)
  is_valid_file_destination destination _ s = made destination true s

  -- `is_valid_destination` once the path is safe.
  unfoldable pub is_valid_stat : List ℕ → Bool → Stat → S → Bool × S
  is_valid_stat destination is_tar stat_error s = (false, s)
  is_valid_stat destination true stat s = is_valid_tar_destination destination stat s
  is_valid_stat destination false stat s = is_valid_file_destination destination stat s

  unfoldable pub is_valid_destination : List ℕ → Bool → S → Bool × S
  is_valid_destination destination is_tar s =
      if is_no_path destination
      then (false, s)
      else if not (is_valid_safe_path destination true is_tar)
      then (false, s)
      else is_valid_stat destination is_tar (fs.stat destination s) s

  unfoldable pub is_absent : Stat → Bool
  is_absent no_entry = true
  is_absent _ = false

  -- `is_valid_relative_file`, of a file in an archive.
  unfoldable pub is_valid_relative_file : List ℕ → List ℕ → List ℕ → S → Bool × S
  is_valid_relative_file base relative combined s =
      let (ready, s') = made combined true s in
      if is_no_path base || is_no_path relative || is_no_path combined
      then (false, s)
      else if not (is_valid_safe_path relative false false)
      then (false, s)
      else if not ready
      then (false, s')
      else (is_absent (fs.stat combined s'), s')

  unfoldable pub is_valid_source_stat : Bool → Stat → Bool
  is_valid_source_stat is_tar (found e) = is_type e.type (if is_tar then directory else file)
  is_valid_source_stat is_tar _ = false

  unfoldable pub is_valid_source : List ℕ → Bool → S → Bool
  is_valid_source source is_tar s =
      if length source == 0
      then false
      else if not (is_valid_safe_path source true is_tar)
      then false
      else is_valid_source_stat is_tar (fs.stat source s)
