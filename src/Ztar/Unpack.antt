-- ===== src/Ztar/Unpack.antt =====
-- lib/edgehog_device/ztar/unpack.c and its header: the streaming tar parser.
pub mod Validate
pub mod State
pub mod Steps
pub mod Process
pub mod Progress
pub mod Invariant
