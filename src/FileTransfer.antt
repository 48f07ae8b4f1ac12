-- ===== src/FileTransfer.antt =====
-- File transfers, lib/edgehog_device/file_transfer/.
pub mod Path
pub mod Files
pub mod Partition
pub mod Message
pub mod Service
pub mod Progress
pub mod Download
mod Tests
pub mod Upload
pub mod Stream
