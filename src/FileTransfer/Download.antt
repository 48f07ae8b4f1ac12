-- ===== src/FileTransfer/Download.antt =====
-- A download to the device, lib/edgehog_device/file_transfer/download.c.
pub mod Data
pub mod Archive
pub mod Chunks
pub mod Handle
pub mod Hashed
pub mod Verified
pub mod Reported
mod Tests
