-- ===== src/FileTransfer/Tests.antt =====
-- The file transfers of lib/edgehog_device/file_transfer at concrete inputs: paths, a file system
-- with a list of directories, a request, and a progress.
use edgehog_zephyr_device.Prelude.{
  ℕ, ◌%◌, ◌<◌, ◌≡◌, ◌↔◌, inl, refl, Bool, true, false, List, [], ◌∷◌, length, get_elem?, some,
  bytes_eq, bytes_eq_refl, codes, if◌then◌else◌, ◌||◌, arith,
}
use edgehog_zephyr_device.Ztar.Core.{block_size}
use edgehog_zephyr_device.FileTransfer.Path.{
  end_bound, has_traversal, is_separator, is_valid_safe_path,
}
use edgehog_zephyr_device.FileTransfer.Path.Components.{IsSafePath, is_valid_safe_path-IsSafePath}
use edgehog_zephyr_device.FileTransfer.Files.Interface.{
  max_path_size, file, directory, Dirent, Stat, found, no_entry, is_found, Listing, closed, listed,
  Statvfs, FileSystem, IsLawful,
}
use edgehog_zephyr_device.FileTransfer.Files.Interface
use edgehog_zephyr_device.FileTransfer.Files.Size.{
  calculate_tar_directory_size, calculate_tar_directory_size-blocks,
}
use edgehog_zephyr_device.FileTransfer.Files.Directories.{
  parent, ensure, make_components, make_directories, status_of, mkdir_target, mkdir_recursive,
}
use edgehog_zephyr_device.FileTransfer.Files.Validate.{
  is_no_path, made, is_valid_file_destination, is_valid_stat, is_valid_destination,
}
use edgehog_zephyr_device.FileTransfer.Files.Accepted.{IsReady, is_valid_destination-IsReady}
use edgehog_zephyr_device.FileTransfer.Partition.{
  Partition, perm_write, is_mount_point, is_granted, fits, is_valid_partition, Holds,
  is_valid_partition-Holds,
}
use edgehog_zephyr_device.FileTransfer.Progress.{
  Progress, percent, should_report, submit_report, update_progress,
}

abbrev safe_path : List ℕ
safe_path = codes "/lfs/a..b/c"

is_valid_safe_path-IsSafePath_example :
    (is_valid_safe_path safe_path true false ≡ true) ↔ IsSafePath safe_path true false
is_valid_safe_path-IsSafePath_example = is_valid_safe_path-IsSafePath safe_path true false

safe_path_accepted : is_valid_safe_path safe_path true false ≡ true
unfolding is_valid_safe_path has_traversal end_bound is_separator
safe_path_accepted = refl

traversal_refused : is_valid_safe_path (codes "/lfs/../etc") true false ≡ false
unfolding is_valid_safe_path has_traversal end_bound is_separator
traversal_refused = refl

-- A file system that is a list of the directories that are there.
unfoldable has_path : List ℕ → List (List ℕ) → Bool
has_path p [] = false
has_path p (q ∷ s) = bytes_eq p q || has_path p s

abbrev as_directory : List ℕ → Dirent
as_directory p = record { name = p; type = directory; size = 0 }

unfoldable list_stat : List ℕ → List (List ℕ) → Stat
list_stat p s = if has_path p s then found (as_directory p) else no_entry

abbrev one_file : Dirent
one_file = record { name = codes "x"; type = file; size = 700 }

unfoldable list_dir : List ℕ → List (List ℕ) → Listing
list_dir p s =
    if bytes_eq p (codes "/lfs")
    then listed (one_file ∷ []) Interface.ok
    else listed [] Interface.ok

abbrev directories : FileSystem (List (List ℕ))
directories = record {
  stat = list_stat;
  mkdir = λ p s. (true, p ∷ s);
  list = list_dir;
  statvfs = λ p s. some (record { bfree = 100; frsize = 512 });
}

mkdir_found_lem : (p : List ℕ) (s : List (List ℕ)) → is_found (list_stat p (p ∷ s)) ≡ true
unfolding list_stat has_path
mkdir_found_lem p s = ground (arith, bytes_eq_refl p)

mkdir_keeps_lem :
    (p q : List ℕ) (s : List (List ℕ))
    → is_found (list_stat q s) ≡ true
    → is_found (list_stat q (p ∷ s)) ≡ true
unfolding list_stat has_path
mkdir_keeps_lem p q s h = ground arith

mkdir_new_lem :
    (q : List ℕ) (s : List (List ℕ)) (e : Dirent) → list_stat q s ≡ found e → e.type ≡ directory
unfolding list_stat
mkdir_new_lem q s e h = ground arith

directories-IsLawful : IsLawful directories
directories-IsLawful = record {
  mkdir_found = λ p s h. mkdir_found_lem p s;
  mkdir_keeps = λ p q s h. mkdir_keeps_lem p q s h;
  mkdir_new = λ p q s e h. inl (mkdir_new_lem q (p ∷ s) e h);
}

abbrev new_file : List ℕ
new_file = codes "/lfs/logs/a.txt"

destination_accepted : (is_valid_destination directories new_file false []).0 ≡ true
unfolding is_valid_destination is_no_path is_valid_safe_path has_traversal end_bound is_separator
    is_valid_stat is_valid_file_destination made mkdir_recursive mkdir_target status_of
    make_directories make_components ensure parent list_stat has_path
destination_accepted = refl

is_valid_destination-IsReady_example :
    IsSafePath new_file true false
    × (length new_file < max_path_size)
    × IsReady directories directories-IsLawful new_file false []
        (is_valid_destination directories new_file false []).1
is_valid_destination-IsReady_example =
    is_valid_destination-IsReady directories directories-IsLawful new_file false []
      destination_accepted

calculate_tar_directory_size-blocks_example :
    (n : ℕ) × (calculate_tar_directory_size directories (codes "/lfs" ∷ []) (codes "/lfs") ≡ some n)
    × (n % block_size ≡ 0)
calculate_tar_directory_size-blocks_example =
    calculate_tar_directory_size-blocks directories (codes "/lfs" ∷ []) (codes "/lfs")

abbrev partitions : List Partition
partitions =
    record { mount_point = codes "/ram"; permissions = perm_write }
    ∷ record { mount_point = codes "/lfs"; permissions = 3 }
    ∷ []

partition_accepted :
    is_valid_partition directories [] partitions new_file perm_write (some 51000) ≡ true
unfolding is_valid_partition is_mount_point end_bound is_granted fits
partition_accepted = refl

is_valid_partition-Holds_example :
    (i : ℕ) × (p : Partition) × (get_elem? partitions i ≡ some p)
    × Holds directories [] p new_file perm_write (some 51000)
is_valid_partition-Holds_example =
    is_valid_partition-Holds directories [] partitions new_file perm_write (some 51000)
      partition_accepted

abbrev half_done : Progress
half_done = record {
  progress = true;
  transferred_bytes = 500;
  total_bytes = 1000;
  last_reported_bytes = 480;
  reports = 480 ∷ [];
}

half_done_reported : (update_progress half_done 40 false).reports ≡ 480 ∷ 540 ∷ []
unfolding update_progress submit_report should_report percent
half_done_reported = refl
