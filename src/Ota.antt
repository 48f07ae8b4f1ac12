-- ===== src/Ota.antt =====
-- Over-the-air updates, lib/edgehog_device/ota.c and lib/edgehog_device/include/ota.h.
pub mod State
pub mod Publish
pub mod Download
pub mod Thread
pub mod Events
pub mod Boot
pub mod Complete
pub mod Retry
pub mod Percentage
pub mod Cleanup
pub mod Restart
pub mod Requests
pub mod Startup
mod Tests
