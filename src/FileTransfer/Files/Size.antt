-- ===== src/FileTransfer/Files/Size.antt =====
-- `calculate_tar_directory_size` of lib/edgehog_device/file_transfer/filesystem_utils.c: the size of
-- the archive that lib/edgehog_device/ztar/pack.c writes for a directory.
use edgehog_zephyr_device.Prelude.{ℕ, ◌%◌, ◌≡◌, refl, List, Option, none, some, arith}
use edgehog_zephyr_device.Ztar.Core.{
  block_size, trailer_size, required_file_padding, required_file_padding_lem, add_size,
}
use edgehog_zephyr_device.FileTransfer.Files.Interface.{
  EntryType, file, directory, Dirent, Status, FileSystem,
}
use edgehog_zephyr_device.FileTransfer.Files.Walk.{fs_walk}
use edgehog_zephyr_device.FileTransfer.Files.WalkTotal.{fs_walk_total}

-- The bytes that an entry adds.
unfoldable pub add_entry : EntryType → ℕ → ℕ → ℕ
add_entry file size total =
    add_size (add_size total block_size) (add_size size (required_file_padding size))
add_entry directory size total = total

unfoldable pub compute_size_callback : List ℕ → Dirent → ℕ → ℕ
compute_size_callback path e total = add_entry e.type e.size total

-- The two blocks behind the files. A walk that fails counts what it has seen.
unfoldable pub with_trailer : Option (Status × ℕ) → Option ℕ
with_trailer none = none
with_trailer (some (status, total)) = some (add_size total (trailer_size))

unfoldable pub calculate_tar_directory_size : {S : Type 0} → FileSystem S → S → List ℕ → Option ℕ
calculate_tar_directory_size fs s dir = with_trailer (fs_walk compute_size_callback fs s dir 0)

add_entry-blocks :
    (type : EntryType) (size total : ℕ)
    → total % block_size ≡ 0
    → add_entry type size total % block_size ≡ 0
unfolding add_entry
add_entry-blocks file size total h = omega (arith, required_file_padding_lem size)
add_entry-blocks directory size total h = h

-- For every directory and file system the calculation of an archive's size returns, and the size is
-- a number of whole blocks, also where the 32-bit sum wraps.
pub calculate_tar_directory_size-blocks :
    {S : Type 0} (fs : FileSystem S) (s : S) (dir : List ℕ)
    → (n : ℕ) × (calculate_tar_directory_size fs s dir ≡ some n) × (n % block_size ≡ 0)
unfolding calculate_tar_directory_size with_trailer compute_size_callback
calculate_tar_directory_size-blocks fs s dir =
    let (st, total, e, blocks) =
      fs_walk_total (λ total. total % block_size ≡ 0) compute_size_callback
        (λ path e total h. add_entry-blocks e.type e.size total h) fs s dir 0 refl in
    (add_size total (trailer_size), rw e, omega arith)
