-- ===== src/Telemetry/Lifecycle.antt =====
-- The slots through the events, the creation and the start of the telemetry service
-- (lib/edgehog_device/telemetry.c).
use edgehog_zephyr_device.Prelude.{
  ℕ, zero, suc, ◌+◌, ◌-◌, ◌≡◌, refl, subst, Bool, true, List, Option, none, some, ℤ, arith,
}
use edgehog_zephyr_device.Telemetry.State.{telemetry_len, Config, Entry, Telemetry, Calls, Data}
use edgehog_zephyr_device.Telemetry.Entries.{slot, telemetry_entry_get}
use edgehog_zephyr_device.Telemetry.Events.{
  unset_endpoint, set_parsed, config_set_event, unset_type, unset_parsed, config_unset_event,
  parse_configuration_event,
}
use edgehog_zephyr_device.Telemetry.Service.{
  telemetry_new, start_slot, start_slots, telemetry_start,
}
use edgehog_zephyr_device.Telemetry.Slots.{SlotFits, Slots, slot-SlotFits, load_from_config-Slots}
use edgehog_zephyr_device.Telemetry.Invariant.{
  schedule_entry-Slots, update_entry-Slots, changed-SlotFits, unset_endpoint_lem,
  parse_configuration_event_lem, got-SlotFits, set_type-Slots,
}

set_parsed-Slots :
    (calls : Calls) (parsed : Option (ℕ × List ℕ)) (path : List ℕ) (v : Data) (t : Telemetry)
    → parse_configuration_event path ≡ parsed
    → Slots t.entries
    → Slots (set_parsed calls parsed v t).1.entries
unfolding set_parsed
set_parsed-Slots calls none path v t e s = s
set_parsed-Slots calls (some (type, endpoint)) path v t e s =
    let (p, q) = parse_configuration_event_lem path e in
    let o = telemetry_entry_get type t.entries in
    set_type-Slots calls type endpoint v o t p q (got-SlotFits type t.entries o p q s refl) s

-- A set property keeps every entry in the slot of its type and every running timer at a positive
-- period, whatever its path and its value are and whether the calls that it makes work.
pub config_set_event-Slots :
    (calls : Calls) (path : List ℕ) (v : Data) (t : Telemetry)
    → Slots t.entries
    → Slots (config_set_event calls path v t).1.entries
unfolding config_set_event
config_set_event-Slots calls path v t s =
    set_parsed-Slots calls (parse_configuration_event path) path v t refl s

unset_type-Slots :
    (calls : Calls) (type : ℕ) (endpoint : List ℕ) (o : Option Entry) (t : Telemetry)
    → SlotFits (type - 1) o
    → Slots t.entries
    → Slots (unset_type calls type endpoint o t).1.entries
unfolding unset_type
unset_type-Slots calls type endpoint none t f s = s
unset_type-Slots calls type endpoint (some e) t f s =
    let e' = unset_endpoint endpoint t.configs e in
    update_entry-Slots calls (type - 1) e' t
      (changed-SlotFits (type - 1) e e' (unset_endpoint_lem endpoint t.configs e) f) s

unset_parsed-Slots :
    (calls : Calls) (parsed : Option (ℕ × List ℕ)) (path : List ℕ) (t : Telemetry)
    → parse_configuration_event path ≡ parsed
    → Slots t.entries
    → Slots (unset_parsed calls parsed t).1.entries
unfolding unset_parsed
unset_parsed-Slots calls none path t e s = s
unset_parsed-Slots calls (some (type, endpoint)) path t e s =
    let (p, q) = parse_configuration_event_lem path e in
    let o = telemetry_entry_get type t.entries in
    unset_type-Slots calls type endpoint o t (got-SlotFits type t.entries o p q s refl) s

-- An unset property keeps every entry in the slot of its type and every running timer at a positive
-- period.
pub config_unset_event-Slots :
    (calls : Calls) (path : List ℕ) (t : Telemetry)
    → Slots t.entries
    → Slots (config_unset_event calls path t).1.entries
unfolding config_unset_event
config_unset_event-Slots calls path t s =
    unset_parsed-Slots calls (parse_configuration_event path) path t refl s

start_slot-Slots :
    (calls : Calls) (i : ℕ) (o : Option Entry) (t : Telemetry)
    → SlotFits i o
    → Slots t.entries
    → Slots (start_slot calls i o t).entries
unfolding start_slot
start_slot-Slots calls i none t f s = s
start_slot-Slots calls i (some e) t f s = ground (arith, schedule_entry-Slots calls i e t f s)

start_slots-Slots :
    (calls : Calls) (left i : ℕ) (t : Telemetry)
    → Slots t.entries
    → Slots (start_slots calls left i t).entries
unfolding start_slots
start_slots-Slots calls zero i t s = s
start_slots-Slots calls (suc left) i t s =
    let o = slot (some i) t.entries in
    let fits = subst (λ j. SlotFits j o) (omega arith) (slot-SlotFits 0 i t.entries s.fit) in
    start_slots-Slots calls left (i + 1) (start_slot calls i o t)
      (start_slot-Slots calls i o t fits s)

-- A service that is created from entries in their slots and then started, with success or not, has
-- every entry in the slot of its type and every running timer at a positive period.
pub telemetry_start-telemetry_new :
    (calls : Calls) (configs : List Config) (loaded : List (Option Entry))
    (periods : List (Option ℤ)) (enables : List (Option Bool))
    → Slots loaded
    → Slots (telemetry_start calls (telemetry_new calls configs loaded periods enables)).1.entries
unfolding telemetry_start telemetry_new
telemetry_start-telemetry_new calls configs loaded periods enables s =
    let fresh = telemetry_new calls configs loaded periods enables in
    let running : Telemetry = record fresh { running = true } in
    let kept = load_from_config-Slots calls.calloc configs loaded s in
    ground (arith, kept, start_slots-Slots calls telemetry_len 0 running kept)
