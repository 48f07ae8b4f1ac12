-- ===== src/Http.antt =====
-- The HTTP client, lib/edgehog_device/http.c and lib/edgehog_device/include/http.h, over the sockets
-- and the HTTP library of the operating system.
pub mod Response
pub mod Payload
pub mod Sent
pub mod Path
pub mod Request
pub mod Released
mod Tests
