-- ===== src/FileTransfer/Files.antt =====
-- The file system of the operating system, as lib/edgehog_device/file_transfer/filesystem_utils.c
-- calls it, and `mkdir_recursive`, `fs_walk` and the validation of paths on it.
pub mod Interface
pub mod Directories
pub mod Walk
pub mod WalkTotal
pub mod Size
pub mod Validate
pub mod Accepted
