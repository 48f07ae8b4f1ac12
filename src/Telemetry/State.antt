-- ===== src/Telemetry/State.antt =====
-- What the telemetry service keeps (include/edgehog_device/telemetry.h and
-- lib/edgehog_device/include/telemetry_private.h, telemetry_entry.h), and the outcomes of its calls.
use edgehog_zephyr_device.Prelude.{ℕ, Bool, List, Option, ℤ}

-- EDGEHOG_TELEMETRY_LEN. A type is a number: 1 hardware, 2 Wi-Fi scan, 3 status, 4 storage.
abbrev pub telemetry_len : ℕ
telemetry_len = 5

-- EDGEHOG_TELEMETRY_INVALID
abbrev pub telemetry_invalid : ℕ
telemetry_invalid = 0

pub record Config : Type 0 where
  pub type : ℕ
  pub period_seconds : ℤ

-- K_SECONDS of a period. The macro is the operating system's, and so is the number of ticks that it
-- gives, or fails to give for a period out of its range; here it stays as it is written.
pub data Timeout : Type 0 where
  k_seconds : ℤ → Timeout

-- `edgehog_telemetry_entry_t`: the timer is stopped, or was started with a timeout and runs.
pub record Entry : Type 0 where
  pub type : ℕ
  pub period_seconds : ℤ
  pub enable : Bool
  pub timer : Option Timeout

-- `edgehog_telemetry_t`, with the periods and flags that the settings hold for a type.
pub record Telemetry : Type 0 where
  pub configs : List Config
  pub entries : List (Option Entry)
  pub running : Bool
  pub stored_periods : List (Option ℤ)
  pub stored_enables : List (Option Bool)

-- The outcomes of the calls that the service makes. `timer_active` is whether a timer that was just
-- started has time left, and `timer_remaining` whether one that was running before has: the time left
-- is counted in whole milliseconds, so that it is 0 in the last one.
pub record Calls : Type 0 where
  pub calloc : Bool
  pub save_period : Bool
  pub save_enable : Bool
  pub timer_active : Bool
  pub timer_remaining : Bool
  pub thread_create : Bool

-- A value that the server sets.
pub data Data : Type 0 where
  boolean : Bool → Data
  long_integer : ℤ → Data
  other_data : Data
