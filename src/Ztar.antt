-- ===== src/Ztar.antt =====
-- The tar library, lib/edgehog_device/ztar and its headers: the shared header layout, the octal
-- fields, the streaming parser and the streaming writer, and the laws that relate them.
pub mod Core
pub mod Octal
pub mod Header
pub mod Unpack
pub mod Pack
pub mod RoundTrip
mod Tests
