-- ===== src/Telemetry/Events.antt =====
-- The configuration events of the server, lib/edgehog_device/telemetry.c.
use edgehog_zephyr_device.Prelude.{
  ℕ, ◌-◌, ◌==◌, false, not, List, [], ◌∷◌, ◌++◌, Option, none, some, pos, if◌then◌else◌, bytes_eq,
  codes,
}
use edgehog_zephyr_device.Result.{EdgehogResult, telemetry_start_fail, astarte_error}
use edgehog_zephyr_device.Telemetry.State.{
  telemetry_invalid, Config, Entry, Telemetry, Calls, Data, boolean, long_integer,
}
use edgehog_zephyr_device.Telemetry.Entries.{
  telemetry_entry_get, telemetry_entry_set, telemetry_entry_new, type_is_in_config,
  get_period_from_config,
}
use edgehog_zephyr_device.Telemetry.Schedule.{write_entry, apply_enable}

-- The tokens that `strtok_r` gives for "/", with the characters of the token so far.
unfoldable pub split_path : List ℕ → List ℕ → List (List ℕ)
split_path [] [] = []
split_path (t ∷ ts) [] = (t ∷ ts) ∷ []
split_path token (c ∷ cs) =
    let inside = split_path (token ++ c ∷ []) cs in
    let behind = split_path [] cs in if c == b'/' then end_token token behind else inside
  where
    end_token : List ℕ → List (List ℕ) → List (List ℕ)
    end_token [] rest = rest
    end_token (t ∷ ts) rest = (t ∷ ts) ∷ rest

unfoldable pub type_from_interface : List ℕ → ℕ
type_from_interface name =
    if bytes_eq name (codes "io.edgehog.devicemanager.HardwareInfo")
    then 1
    else if bytes_eq name (codes "io.edgehog.devicemanager.WiFiScanResults")
    then 2
    else if bytes_eq name (codes "io.edgehog.devicemanager.SystemStatus")
    then 3
    else if bytes_eq name (codes "io.edgehog.devicemanager.StorageUsage")
    then 4
    else telemetry_invalid

-- The type and the endpoint of a path, `none` where `parse_configuration_event` fails or leaves no
-- endpoint: both events answer with the same error.
unfoldable pub parse_tokens : List (List ℕ) → Option (ℕ × List ℕ)
parse_tokens (request ∷ name ∷ endpoint ∷ rest) =
    let type = type_from_interface name in
    if type == telemetry_invalid then none else some (type, endpoint)
parse_tokens _ = none

unfoldable pub parse_configuration_event : List ℕ → Option (ℕ × List ℕ)
parse_configuration_event path = parse_tokens (split_path [] path)

-- What a set property does to an entry.
unfoldable pub set_endpoint : List ℕ → Data → Entry → Entry
set_endpoint endpoint value e =
    if bytes_eq endpoint (codes "enable")
    then with_enable value
    else if bytes_eq endpoint (codes "periodSeconds")
    then with_period value
    else e
  where
    with_enable : Data → Entry
    with_enable (boolean b) = record e { enable = b }
    with_enable _ = e

    with_period : Data → Entry
    with_period (long_integer n) = record e { period_seconds = n }
    with_period _ = e

-- What an unset property does to an entry.
unfoldable pub unset_endpoint : List ℕ → List Config → Entry → Entry
unset_endpoint endpoint configs e =
    if bytes_eq (codes "enable") endpoint
    then record e { enable = type_is_in_config e.type configs }
    else if bytes_eq (codes "periodSeconds") endpoint
    then record e { period_seconds = get_period_from_config e.type configs }
    else e

-- The entry of the slot changes and is scheduled or not.
unfoldable pub update_entry : Calls → ℕ → Entry → Telemetry → EdgehogResult × Telemetry
update_entry calls i e t = apply_enable calls i e (write_entry i e t)

-- `edgehog_telemetry_config_set_event` for a type, with its entry where there is one.
unfoldable pub set_type :
    Calls → ℕ → List ℕ → Data → Option Entry → Telemetry → EdgehogResult × Telemetry
set_type calls type endpoint value (some e) t =
    update_entry calls (type - 1) (set_endpoint endpoint value e) t
set_type calls type endpoint value none t =
    let e = telemetry_entry_new type (pos 0) false in
    let t' : Telemetry = record t { entries = telemetry_entry_set e t.entries } in
    if not calls.calloc
    then (telemetry_start_fail, t)
    else update_entry calls (type - 1) (set_endpoint endpoint value e) t'

unfoldable pub set_parsed :
    Calls → Option (ℕ × List ℕ) → Data → Telemetry → EdgehogResult × Telemetry
set_parsed calls none value t = (astarte_error, t)
set_parsed calls (some (type, endpoint)) value t =
    set_type calls type endpoint value (telemetry_entry_get type t.entries) t

unfoldable pub config_set_event : Calls → List ℕ → Data → Telemetry → EdgehogResult × Telemetry
config_set_event calls path value t = set_parsed calls (parse_configuration_event path) value t

-- `edgehog_telemetry_config_unset_event` for a type, with its entry where there is one.
unfoldable pub unset_type :
    Calls → ℕ → List ℕ → Option Entry → Telemetry → EdgehogResult × Telemetry
unset_type calls type endpoint none t = (telemetry_start_fail, t)
unset_type calls type endpoint (some e) t =
    update_entry calls (type - 1) (unset_endpoint endpoint t.configs e) t

unfoldable pub unset_parsed : Calls → Option (ℕ × List ℕ) → Telemetry → EdgehogResult × Telemetry
unset_parsed calls none t = (astarte_error, t)
unset_parsed calls (some (type, endpoint)) t =
    unset_type calls type endpoint (telemetry_entry_get type t.entries) t

unfoldable pub config_unset_event : Calls → List ℕ → Telemetry → EdgehogResult × Telemetry
config_unset_event calls path t = unset_parsed calls (parse_configuration_event path) t
