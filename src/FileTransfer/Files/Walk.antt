-- ===== src/FileTransfer/Files/Walk.antt =====
-- `fs_walk` of lib/edgehog_device/file_transfer/filesystem_utils.c, which calls back for every entry
-- below a directory, after the entries below that entry.
use edgehog_zephyr_device.Prelude.{
  ℕ, zero, suc, ◌-◌, ◌==◌, leb, Bool, true, false, List, [], ◌∷◌, ◌++◌, length, get_elem?, Option,
  none, some, if◌then◌else◌,
}
use edgehog_zephyr_device.FileTransfer.Path.{is_separator}
use edgehog_zephyr_device.FileTransfer.Files.Interface.{
  max_path_size, EntryType, file, directory, Dirent, Status, ok, name_too_long, failed, Listing,
  closed, listed, FileSystem, is_link,
}

-- The path of an entry: a separator stands between, where the directory's path does not end in one.
unfoldable pub join : List ℕ → List ℕ → List ℕ
join path name =
    if is_separator (get_elem? path (length path - 1)) then path ++ name else path ++ b'/' ∷ name

-- A walk below an entry ends the walk with its error, a path that is too long excepted.
unfoldable pub ends_walk : Status → Bool
ends_walk ok = false
ends_walk name_too_long = false
ends_walk _ = true

module _ {U : Type 0} (cbk : List ℕ → Dirent → U → U) where
  -- The walk below an entry, which is there for a directory only.
  unfoldable pub descend :
      (List ℕ → U → Option (Status × U)) → EntryType → List ℕ → U → Option (Status × U)
  descend walk file path u = some (ok, u)
  descend walk directory path u = walk path u

  -- The loop over the entries, with the walk below an entry as a function. An empty name ends it.
  unfoldable pub walk_entries :
      (List ℕ → U → Option (Status × U)) → List ℕ → List Dirent → Status → U → Option (Status × U)
  walk_entries walk path [] last u = some (last, u)
  walk_entries walk path (e ∷ entries) last u =
      let full = join path e.name in
      let next = walk_entries walk path entries last in
      let below : Option (Status × U) = elim (descend walk e.type full u) [
        | none ↦ none
        | some (st, u') ↦ if ends_walk st then some (st, u') else next (cbk full e u')
      ] in
      if length e.name == 0
      then some (ok, u)
      else if is_link e.name
      then next u
      else if leb max_path_size (length full)
      then some (name_too_long, u)
      else below

  unfoldable pub walk_listing :
      (List ℕ → U → Option (Status × U)) → List ℕ → Listing → U → Option (Status × U)
  walk_listing walk path closed u = some (failed, u)
  walk_listing walk path (listed entries last) u = walk_entries walk path entries last u

  module _ {S : Type 0} (fs : FileSystem S) (s : S) where
    -- `walk_recursive`; the fuel bounds the depth.
    unfoldable pub walk_recursive : ℕ → List ℕ → U → Option (Status × U)
    walk_recursive zero path u = none
    walk_recursive (suc n) path u = walk_listing (walk_recursive n) path (fs.list path s) u

    -- A path has fewer than MAX_PATH_SIZE bytes, and each level adds one.
    unfoldable pub fs_walk : List ℕ → U → Option (Status × U)
    fs_walk path u =
        if leb max_path_size (length path)
        then some (name_too_long, u)
        else walk_recursive max_path_size path u
