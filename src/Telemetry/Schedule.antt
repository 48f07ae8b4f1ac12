-- ===== src/Telemetry/Schedule.antt =====
-- The scheduling of an entry, lib/edgehog_device/telemetry.c. The entry that C passes by its
-- address is given by its slot and its contents, which are written back.
use edgehog_zephyr_device.Prelude.{
  ℕ, ltb, Bool, false, not, ◌||◌, set, Option, none, some, is_zero, is_negative, if◌then◌else◌,
}
use edgehog_zephyr_device.Result.{EdgehogResult, ok, telemetry_start_fail, telemetry_stop_fail}
use edgehog_zephyr_device.Telemetry.State.{
  telemetry_len, telemetry_invalid, Timeout, k_seconds, Entry, Telemetry, Calls,
}
use edgehog_zephyr_device.Telemetry.Entries.{telemetry_entry_remove, telemetry_entry_store}

-- `entry->type <= EDGEHOG_TELEMETRY_INVALID || entry->type >= EDGEHOG_TELEMETRY_LEN`
unfoldable pub is_invalid_type : ℕ → Bool
is_invalid_type type = not (ltb telemetry_invalid type) || not (ltb type telemetry_len)

-- `k_timer_remaining_get(timer) != 0`
unfoldable pub is_active : Calls → Option Timeout → Bool
is_active calls none = false
is_active calls (some timeout) = calls.timer_remaining

-- The entry that stands at an address.
unfoldable pub write_entry : ℕ → Entry → Telemetry → Telemetry
write_entry i e t = record t { entries = set t.entries i (some e) }

unfoldable pub remove_entry : ℕ → Telemetry → Telemetry
remove_entry type t = record t { entries = telemetry_entry_remove type t.entries }

-- `schedule_entry` of the entry `e` in the slot `i`.
unfoldable pub schedule_entry : Calls → ℕ → Entry → Telemetry → EdgehogResult × Telemetry
schedule_entry calls i e t =
    let started : Entry = record e { timer = some (k_seconds e.period_seconds) } in
    let stored = telemetry_entry_store calls e t in
    if is_invalid_type e.type
    then (telemetry_start_fail, t)
    else if is_negative e.period_seconds || is_zero e.period_seconds
    then (telemetry_start_fail, t)
    else if not t.running
    then (ok, stored)
    else if is_active calls e.timer
    then (ok, write_entry i started stored)
    else if calls.timer_active
    then (ok, write_entry i started stored)
    else (telemetry_start_fail, remove_entry e.type stored)

-- `unschedule_entry` of the entry `e` in the slot `i`.
unfoldable pub unschedule_entry : Calls → ℕ → Entry → Telemetry → EdgehogResult × Telemetry
unschedule_entry calls i e t =
    let stopped : Entry = record e { timer = none } in
    let stored = telemetry_entry_store calls e t in
    if is_invalid_type e.type
    then (telemetry_stop_fail, t)
    else if is_active calls e.timer
    then (ok, write_entry i stopped stored)
    else (ok, stored)

-- The last lines of both events.
unfoldable pub apply_enable : Calls → ℕ → Entry → Telemetry → EdgehogResult × Telemetry
apply_enable calls i e t =
    if e.enable then schedule_entry calls i e t else unschedule_entry calls i e t
