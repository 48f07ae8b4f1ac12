-- ===== src/Telemetry/Service.antt =====
-- The life of the service, lib/edgehog_device/telemetry.c: its creation, start and stop.
use edgehog_zephyr_device.Prelude.{
  ℕ, zero, suc, ◌+◌, Bool, true, false, not, List, Option, none, some, ℤ, if◌then◌else◌,
}
use edgehog_zephyr_device.Result.{
  telemetry_stop_timeout, internal_error, EdgehogResult, ok, telemetry_start_fail,
}
use edgehog_zephyr_device.Telemetry.State.{telemetry_len, Config, Entry, Telemetry, Calls}
use edgehog_zephyr_device.Telemetry.Entries.{slot, load_from_config}
use edgehog_zephyr_device.Telemetry.Schedule.{schedule_entry}

-- `edgehog_telemetry_new` behind its allocations, with the entries and values that the settings gave.
unfoldable pub telemetry_new :
    Calls → List Config → List (Option Entry) → List (Option ℤ) → List (Option Bool) → Telemetry
telemetry_new calls configs loaded periods enables = record {
  configs = configs;
  entries = load_from_config calls.calloc configs loaded;
  running = false;
  stored_periods = periods;
  stored_enables = enables;
}

-- The body of the loop in `edgehog_telemetry_start`: the result is not looked at.
unfoldable pub start_slot : Calls → ℕ → Option Entry → Telemetry → Telemetry
start_slot calls i none t = t
start_slot calls i (some e) t = if e.enable then (schedule_entry calls i e t).1 else t

unfoldable pub start_slots : Calls → ℕ → ℕ → Telemetry → Telemetry
start_slots calls zero i t = t
start_slots calls (suc left) i t =
    start_slots calls left (i + 1) (start_slot calls i (slot (some i) t.entries) t)

unfoldable pub telemetry_start : Calls → Telemetry → EdgehogResult × Telemetry
telemetry_start calls t =
    let running : Telemetry = record t { running = true } in
    if t.running
    then (telemetry_start_fail, t)
    else if not calls.thread_create
    then (telemetry_start_fail, record running { running = false })
    else (ok, start_slots calls telemetry_len 0 running)

-- What `k_thread_join` returns: 0, -EAGAIN, or another error.
pub data JoinResult : Type 0 where
  joined timed_out failed : JoinResult

unfoldable pub stop_result : JoinResult → EdgehogResult
stop_result joined = ok
stop_result timed_out = telemetry_stop_timeout
stop_result failed = internal_error

unfoldable pub telemetry_stop : JoinResult → Telemetry → EdgehogResult × Telemetry
telemetry_stop res t = (stop_result res, record t { running = false })

-- `none` for a null service.
unfoldable pub telemetry_is_running : Option Telemetry → Bool
telemetry_is_running none = false
telemetry_is_running (some t) = t.running
