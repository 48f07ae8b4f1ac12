-- ===== src/FileTransfer/Service.antt =====
-- The service of file transfers, lib/edgehog_device/file_transfer/core.c: its thread, its queue, and
-- the requests of the server. It shares a semaphore with the updates of lib/edgehog_device/ota.c.
pub mod State
pub mod Thread
pub mod Requests
pub mod Reported
pub mod Steps
pub mod Semaphore
pub mod Order
mod Tests
