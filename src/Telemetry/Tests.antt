-- ===== src/Telemetry/Tests.antt =====
-- The telemetry service at concrete inputs: one telemetry in the configuration, events for another.
use edgehog_zephyr_device.Prelude.{
  ℕ, ◌≡◌, refl, true, false, List, [], ◌∷◌, replicate, Option, none, some, pos, negsuc, codes,
  arith,
}
use edgehog_zephyr_device.Result.{ok, telemetry_start_fail}
use edgehog_zephyr_device.Telemetry.State.{k_seconds, Config, Entry, Telemetry, Calls, long_integer}
use edgehog_zephyr_device.Telemetry.Entries.{
  get_telemetry_entry_index, slot, telemetry_entry_get, telemetry_entry_store,
}
use edgehog_zephyr_device.Telemetry.Schedule.{
  write_entry, schedule_entry, unschedule_entry, apply_enable, is_invalid_type, is_active,
}
use edgehog_zephyr_device.Telemetry.Events.{
  set_endpoint, update_entry, set_type, set_parsed, config_set_event, config_unset_event,
  parse_configuration_event, parse_tokens, type_from_interface, split_path,
}
use edgehog_zephyr_device.Telemetry.Service.{telemetry_new, telemetry_start}
use edgehog_zephyr_device.Telemetry.Slots.{Slots}
use edgehog_zephyr_device.Telemetry.Entries.{type_is_in_config}
use edgehog_zephyr_device.Telemetry.Lifecycle.{
  config_set_event-Slots, config_unset_event-Slots, telemetry_start-telemetry_new,
}
use edgehog_zephyr_device.Telemetry.Timers.{IsScheduled, config_set_event-IsScheduled}
use edgehog_zephyr_device.Telemetry.Unset.{config_unset_event-timer}

abbrev working : Calls
working = record {
  calloc = true;
  save_period = true;
  save_enable = true;
  timer_active = true;
  timer_remaining = true;
  thread_create = true;
}

abbrev hardware : Config
hardware = record { type = 1; period_seconds = pos 60 }

-- Status every ten seconds, set by the server.
abbrev status : Entry
status = record {
  type = 3;
  period_seconds = pos 10;
  enable = true;
  timer = some (k_seconds (pos 10));
}

abbrev service : Telemetry
service = record {
  configs = hardware ∷ [];
  entries = none ∷ none ∷ some status ∷ none ∷ none ∷ [];
  running = true;
  stored_periods = replicate 5 none;
  stored_enables = replicate 5 none;
}

service-Slots : Slots service.entries
service-Slots = record {
  five = refl;
  fit = (tt, (tt, ((refl, omega arith, refl), (tt, (tt, tt)))));
}

abbrev no_entries : List (Option Entry)
no_entries = replicate 5 none

no_entries-Slots : Slots no_entries
no_entries-Slots = record { five = refl; fit = (tt, (tt, (tt, (tt, (tt, tt))))) }

abbrev status_period : List ℕ
status_period = codes "/request/io.edgehog.devicemanager.SystemStatus/periodSeconds"

status_period_parsed : parse_configuration_event status_period ≡ some (3, codes "periodSeconds")
unfolding parse_configuration_event parse_tokens type_from_interface split_path
status_period_parsed = refl

config_set_event-Slots_example :
    Slots (config_set_event working status_period (long_integer (pos 30)) service).1.entries
config_set_event-Slots_example =
    config_set_event-Slots working status_period (long_integer (pos 30)) service service-Slots

config_unset_event-Slots_example :
    Slots (config_unset_event working status_period service).1.entries
config_unset_event-Slots_example =
    config_unset_event-Slots working status_period service service-Slots

telemetry_start-telemetry_new_example :
    Slots
      (telemetry_start working (
        telemetry_new working
          (hardware ∷ [])
          no_entries
          (replicate 5 none)
          (replicate 5 none))).1.entries
telemetry_start-telemetry_new_example =
    telemetry_start-telemetry_new working (hardware ∷ []) no_entries (replicate 5 none)
      (replicate 5 none) no_entries-Slots

period_set : (config_set_event working status_period (long_integer (pos 30)) service).0 ≡ ok
unfolding config_set_event set_parsed set_type set_endpoint update_entry apply_enable schedule_entry
    unschedule_entry telemetry_entry_store write_entry is_invalid_type is_active telemetry_entry_get
    get_telemetry_entry_index slot parse_configuration_event parse_tokens type_from_interface
    split_path
period_set = refl

config_set_event-IsScheduled_example : IsScheduled working (
    telemetry_entry_get 3
      (config_set_event working status_period (long_integer (pos 30)) service).1.entries)
config_set_event-IsScheduled_example =
    config_set_event-IsScheduled working status_period (codes "periodSeconds") 3
      (long_integer (pos 30)) service service-Slots refl status_period_parsed period_set

status_stands : telemetry_entry_get 3 service.entries ≡ some status
unfolding telemetry_entry_get get_telemetry_entry_index slot
status_stands = refl

status_not_configured : type_is_in_config 3 service.configs ≡ false
unfolding type_is_in_config
status_not_configured = refl

config_unset_event-timer_example :
    let r = config_unset_event working status_period service in
    (r.0 ≡ telemetry_start_fail)
    × (telemetry_entry_get 3 r.1.entries ≡ some (record status { period_seconds = negsuc 0 }))
config_unset_event-timer_example =
    config_unset_event-timer working status_period 3 status service service-Slots
      status_period_parsed status_stands refl status_not_configured
