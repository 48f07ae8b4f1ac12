-- ===== src/Telemetry.antt =====
-- The telemetry service: lib/edgehog_device/telemetry.c and lib/edgehog_device/telemetry_entry.c.
pub mod State
pub mod Entries
pub mod Schedule
pub mod Events
pub mod Service
pub mod Slots
pub mod Invariant
pub mod Timers
pub mod Lifecycle
pub mod Unset
mod Tests
