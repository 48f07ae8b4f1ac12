-- ===== src/Telemetry/Invariant.antt =====
-- The slots through the operations of the telemetry service, lib/edgehog_device/telemetry.c.
use edgehog_zephyr_device.Prelude.{
  ℕ, ◌-◌, ◌<◌, ◌≡◌, inl, inr, sym, ap, ◌∙◌, subst, false, ◌||◌, List, [], ◌∷◌, Option, none, some,
  pos, is_zero, is_negative, Bool-cases, arith,
}
use edgehog_zephyr_device.Telemetry.State.{
  k_seconds, Config, Entry, Telemetry, Calls, Data, boolean, long_integer, other_data,
}
use edgehog_zephyr_device.Telemetry.Entries.{
  get_telemetry_entry_index, slot, telemetry_entry_get, telemetry_entry_set, telemetry_entry_store,
  telemetry_entry_new,
}
use edgehog_zephyr_device.Telemetry.Schedule.{
  write_entry, remove_entry, schedule_entry, unschedule_entry, apply_enable,
}
use edgehog_zephyr_device.Telemetry.Events.{
  set_endpoint, unset_endpoint, update_entry, set_type, parse_configuration_event, parse_tokens,
  type_from_interface, split_path,
}
use edgehog_zephyr_device.Telemetry.Slots.{
  TimerFits, SlotFits, Slots, set-Slots, slot-SlotFits, telemetry_entry_set-Slots,
  telemetry_entry_remove-Slots,
}

pub store-entries :
    (calls : Calls) (e : Entry) (t : Telemetry)
    → let t' = telemetry_entry_store calls e t in
      (t'.entries ≡ t.entries) × (t'.running ≡ t.running)
unfolding telemetry_entry_store
store-entries calls e t = ground arith

write_entry-Slots :
    (i : ℕ) (e : Entry) (t : Telemetry)
    → SlotFits i (some e)
    → Slots t.entries
    → Slots (write_entry i e t).entries
unfolding write_entry
write_entry-Slots i e t f s = set-Slots i (some e) t.entries s f

store-Slots :
    (calls : Calls) (e : Entry) (t : Telemetry)
    → Slots t.entries
    → Slots (telemetry_entry_store calls e t).entries
store-Slots calls e t s = subst Slots (sym (store-entries calls e t).0) s

remove_entry-Slots :
    (type : ℕ) (t : Telemetry) → Slots t.entries → Slots (remove_entry type t).entries
unfolding remove_entry
remove_entry-Slots type t s = telemetry_entry_remove-Slots type t.entries s

pub schedule_entry-Slots :
    (calls : Calls) (i : ℕ) (e : Entry) (t : Telemetry)
    → SlotFits i (some e)
    → Slots t.entries
    → Slots (schedule_entry calls i e t).1.entries
unfolding schedule_entry
schedule_entry-Slots calls i e t f s =
    let stored = telemetry_entry_store calls e t in
    let started : Entry = record e { timer = some (k_seconds e.period_seconds) } in
    let kept = store-Slots calls e t s in
    elim (Bool-cases (is_negative e.period_seconds || is_zero e.period_seconds)) [
      | inl p ↦ ground arith
      | inr p ↦
          let written = write_entry-Slots i started stored (f.0, f.1, p) kept in
          ground (arith, written, remove_entry-Slots e.type stored kept)
    ]

unschedule_entry-Slots :
    (calls : Calls) (i : ℕ) (e : Entry) (t : Telemetry)
    → SlotFits i (some e)
    → Slots t.entries
    → Slots (unschedule_entry calls i e t).1.entries
unfolding unschedule_entry
unschedule_entry-Slots calls i e t f s =
    let stored = telemetry_entry_store calls e t in
    let stopped : Entry = record e { timer = none } in
    let kept = store-Slots calls e t s in
    let written = write_entry-Slots i stopped stored (f.0, f.1, tt) kept in
    ground (arith, written, kept)

apply_enable-Slots :
    (calls : Calls) (i : ℕ) (e : Entry) (t : Telemetry)
    → SlotFits i (some e)
    → Slots t.entries
    → Slots (apply_enable calls i e t).1.entries
unfolding apply_enable
apply_enable-Slots calls i e t f s =
    ground (arith, schedule_entry-Slots calls i e t f s, unschedule_entry-Slots calls i e t f s)

pub update_entry-Slots :
    (calls : Calls) (i : ℕ) (e : Entry) (t : Telemetry)
    → SlotFits i (some e)
    → Slots t.entries
    → Slots (update_entry calls i e t).1.entries
unfolding update_entry
update_entry-Slots calls i e t f s =
    apply_enable-Slots calls i e (write_entry i e t) f (write_entry-Slots i e t f s)

pub set_endpoint_lem :
    (endpoint : List ℕ) (v : Data) (e : Entry)
    → let e' = set_endpoint endpoint v e in (e'.type ≡ e.type) × (e'.timer ≡ e.timer)
unfolding set_endpoint
set_endpoint_lem endpoint (boolean b) e = ground arith
set_endpoint_lem endpoint (long_integer n) e = ground arith
set_endpoint_lem endpoint other_data e = ground arith

pub unset_endpoint_lem :
    (endpoint : List ℕ) (configs : List Config) (e : Entry)
    → let e' = unset_endpoint endpoint configs e in (e'.type ≡ e.type) × (e'.timer ≡ e.timer)
unfolding unset_endpoint
unset_endpoint_lem endpoint configs e = ground arith

pub changed-SlotFits :
    (i : ℕ) (e e' : Entry)
    → (e'.type ≡ e.type) × (e'.timer ≡ e.timer)
    → SlotFits i (some e)
    → SlotFits i (some e')
changed-SlotFits i e e' (p, q) (a, b, c) = (p ∙ a, b, subst TimerFits (sym q) c)

type_from_interface-lt : (name : List ℕ) → type_from_interface name < 5
unfolding type_from_interface
type_from_interface-lt name = ground arith

parse_tokens_lem :
    (tokens : List (List ℕ)) {type : ℕ} {endpoint : List ℕ}
    → parse_tokens tokens ≡ some (type, endpoint)
    → (0 < type) × (type < 5)
unfolding parse_tokens
parse_tokens_lem [] e = ground arith
parse_tokens_lem (a ∷ []) e = ground arith
parse_tokens_lem (a ∷ b ∷ []) e = ground arith
parse_tokens_lem (a ∷ b ∷ c ∷ rest) e = ground (arith, type_from_interface-lt b)

pub parse_configuration_event_lem :
    (path : List ℕ) {type : ℕ} {endpoint : List ℕ}
    → parse_configuration_event path ≡ some (type, endpoint)
    → (0 < type) × (type < 5)
unfolding parse_configuration_event
parse_configuration_event_lem path e = parse_tokens_lem (split_path [] path) e

pub index_of_type :
    (type : ℕ) → 0 < type → type < 5 → get_telemetry_entry_index type ≡ some (type - 1)
unfolding get_telemetry_entry_index
index_of_type type p q = ground arith

pub telemetry_entry_get_lem :
    (type : ℕ) (os : List (Option Entry))
    → 0 < type
    → type < 5
    → telemetry_entry_get type os ≡ slot (some (type - 1)) os
unfolding telemetry_entry_get
telemetry_entry_get_lem type os p q = ap (λ i. slot i os) (index_of_type type p q)

pub got-SlotFits :
    (type : ℕ) (os : List (Option Entry)) (o : Option Entry)
    → 0 < type
    → type < 5
    → Slots os
    → telemetry_entry_get type os ≡ o
    → SlotFits (type - 1) o
got-SlotFits type os o p q s e =
    subst (SlotFits (type - 1)) (sym (telemetry_entry_get_lem type os p q) ∙ e) (
      subst (λ j. SlotFits j (slot (some (type - 1)) os)) (omega arith)
        (slot-SlotFits 0 (type - 1) os s.fit))

pub set_type-Slots :
    (calls : Calls) (type : ℕ) (endpoint : List ℕ) (v : Data) (o : Option Entry) (t : Telemetry)
    → 0 < type
    → type < 5
    → SlotFits (type - 1) o
    → Slots t.entries
    → Slots (set_type calls type endpoint v o t).1.entries
unfolding set_type
set_type-Slots calls type endpoint v (some e) t p q f s =
    let e' = set_endpoint endpoint v e in
    update_entry-Slots calls (type - 1) e' t
      (changed-SlotFits (type - 1) e e' (set_endpoint_lem endpoint v e) f) s
set_type-Slots calls type endpoint v none t p q f s =
    let e = telemetry_entry_new type (pos 0) false in
    let e' = set_endpoint endpoint v e in
    let t' : Telemetry = record t { entries = telemetry_entry_set e t.entries } in
    let fits : SlotFits (type - 1) (some e) = (omega (arith, p), omega (arith, p, q), tt) in
    let updated =
      update_entry-Slots calls (type - 1) e' t'
        (changed-SlotFits (type - 1) e e' (set_endpoint_lem endpoint v e) fits)
        (telemetry_entry_set-Slots e t.entries tt s) in
    ground (arith, updated)
