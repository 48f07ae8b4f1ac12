-- ===== src/Telemetry/Entries.antt =====
-- The array of entries, lib/edgehog_device/telemetry_entry.c. The array has five slots, and the slot
-- of a type is the type less one.
use edgehog_zephyr_device.Prelude.{
  ℕ, ◌-◌, ◌==◌, ltb, Bool, true, false, not, ◌||◌, ◌&&◌, List, [], ◌∷◌, get_elem?, set, Option,
  none, some, ℤ, negsuc, if◌then◌else◌,
}
use edgehog_zephyr_device.Telemetry.State.{
  telemetry_len, telemetry_invalid, Config, Entry, Telemetry, Calls,
}

-- `get_telemetry_entry_index`; `none` for -1.
unfoldable pub get_telemetry_entry_index : ℕ → Option ℕ
get_telemetry_entry_index type =
    if ltb telemetry_invalid type && ltb type telemetry_len then some (type - 1) else none

-- What stands in a slot.
unfoldable pub slot : Option ℕ → List (Option Entry) → Option Entry
slot none entries = none
slot (some i) entries = flatten (get_elem? entries i)
  where
    flatten : Option (Option Entry) → Option Entry
    flatten none = none
    flatten (some e) = e

-- A slot takes a value.
unfoldable pub put : Option ℕ → Option Entry → List (Option Entry) → List (Option Entry)
put none e entries = entries
put (some i) e entries = set entries i e

unfoldable pub telemetry_entry_get : ℕ → List (Option Entry) → Option Entry
telemetry_entry_get type entries = slot (get_telemetry_entry_index type) entries

unfoldable pub telemetry_entry_set : Entry → List (Option Entry) → List (Option Entry)
telemetry_entry_set e entries = put (get_telemetry_entry_index e.type) (some e) entries

unfoldable pub telemetry_entry_remove : ℕ → List (Option Entry) → List (Option Entry)
telemetry_entry_remove type entries = put (get_telemetry_entry_index type) none entries

unfoldable pub is_entry : Option Entry → Bool
is_entry none = false
is_entry (some e) = true

unfoldable pub telemetry_entry_exist : ℕ → List (Option Entry) → Bool
telemetry_entry_exist type entries = is_entry (slot (get_telemetry_entry_index type) entries)

-- `telemetry_entry_new`, where its allocation works.
abbrev pub telemetry_entry_new : ℕ → ℤ → Bool → Entry
telemetry_entry_new type period_seconds enable = record {
  type = type;
  period_seconds = period_seconds;
  enable = enable;
  timer = none;
}

-- `telemetry_entries_load_from_config`
unfoldable pub load_from_config : Bool → List Config → List (Option Entry) → List (Option Entry)
load_from_config calloc [] entries = entries
load_from_config calloc (c ∷ configs) entries =
    let e = telemetry_entry_new c.type c.period_seconds true in
    let entries' =
      if telemetry_entry_exist c.type entries
      then entries
      else if calloc
      then telemetry_entry_set e entries
      else entries in
    load_from_config calloc configs entries'

-- `type_is_in_config`
unfoldable pub type_is_in_config : ℕ → List Config → Bool
type_is_in_config type [] = false
type_is_in_config type (c ∷ configs) = (type == c.type) || type_is_in_config type configs

-- `get_period_from_config`; -1 where there is none.
unfoldable pub get_period_from_config : ℕ → List Config → ℤ
get_period_from_config type [] = negsuc 0
get_period_from_config type (c ∷ configs) =
    let later = get_period_from_config type configs in
    if type == c.type then c.period_seconds else later

-- `telemetry_entry_store`: the key has one digit, the flag is saved only behind the period.
unfoldable pub telemetry_entry_store : Calls → Entry → Telemetry → Telemetry
telemetry_entry_store calls e t =
    let i = e.type - 1 in
    let t' : Telemetry = record t {
      stored_periods = set t.stored_periods i (some e.period_seconds);
    } in
    if not (ltb e.type 10)
    then t
    else if not calls.save_period
    then t
    else if not calls.save_enable
    then t'
    else record t' { stored_enables = set t.stored_enables i (some e.enable) }
