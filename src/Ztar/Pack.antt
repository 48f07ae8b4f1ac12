-- ===== src/Ztar/Pack.antt =====
-- lib/edgehog_device/ztar/pack.c and its header: the streaming tar writer.
pub mod Format
pub mod State
pub mod Steps
pub mod Stream
pub mod Layout
pub mod Names
pub mod Checksum
pub mod Sound
pub mod Seal
pub mod Bounds
pub mod Output
pub mod Progress
mod Tests
