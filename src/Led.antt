-- ===== src/Led.antt =====
-- The behaviours of the LED, lib/edgehog_device/led.c: the event of the server, the thread that blinks
-- and the timer that ends it.
pub mod State
pub mod Steps
mod Tests
