-- ===== src/FileTransfer/Upload.antt =====
-- An upload from the device, lib/edgehog_device/file_transfer/upload.c.
pub mod Chunks
pub mod Handle
pub mod Reported
mod Tests
