-- ===== src/Telemetry/Timers.antt =====
-- The timers of the telemetry entries after a configuration event (lib/edgehog_device/telemetry.c).
use edgehog_zephyr_device.Prelude.{
  ℕ, ◌-◌, ◌<◌, ◌≡◌, ◌≢◌, ◌⊎◌, inl, inr, refl, sym, ap, ◌∙◌, subst, true, false, not, List, length,
  set, Option, none, some, pos, Bool-cases, if_true, if_false, arith,
}
use edgehog_zephyr_device.Result.{ok, telemetry_start_fail}
use edgehog_zephyr_device.Telemetry.State.{Timeout, k_seconds, Entry, Telemetry, Calls, Data}
use edgehog_zephyr_device.Telemetry.Entries.{
  slot, telemetry_entry_get, telemetry_entry_set, telemetry_entry_store, telemetry_entry_new,
}
use edgehog_zephyr_device.Telemetry.Schedule.{
  write_entry, schedule_entry, unschedule_entry, apply_enable, is_active,
}
use edgehog_zephyr_device.Telemetry.Events.{
  set_endpoint, update_entry, set_type, set_parsed, config_set_event, parse_configuration_event,
}
use edgehog_zephyr_device.Telemetry.Slots.{Slots, slot-set, length-set, telemetry_entry_set-Slots}
use edgehog_zephyr_device.Telemetry.Invariant.{
  store-entries, telemetry_entry_get_lem, parse_configuration_event_lem,
}

-- A timer runs with the period of its entry if the entry is enabled. If it is not, the timer is
-- stopped, or it was in its last millisecond.
unfoldable pub Agrees : Calls → Entry → Type 0
Agrees calls e =
    ((e.enable ≡ true) × (e.timer ≡ some (k_seconds e.period_seconds)))
    ⊎ ((e.enable ≡ false) × ((e.timer ≡ none) ⊎ (calls.timer_remaining ≡ false)))

-- There is an entry, and its timer agrees with it.
unfoldable pub IsScheduled : Calls → Option Entry → Type 0
IsScheduled calls o = (e : Entry) × (o ≡ some e) × Agrees calls e

write_entry-slot :
    (i : ℕ) (e : Entry) (t : Telemetry)
    → i < length t.entries
    → slot (some i) (write_entry i e t).entries ≡ some e
unfolding write_entry
write_entry-slot i e t h = slot-set i (some e) t.entries h

schedule_entry-IsScheduled :
    (calls : Calls) (i : ℕ) (e : Entry) (t : Telemetry)
    → t.running ≡ true
    → i < length t.entries
    → e.enable ≡ true
    → (schedule_entry calls i e t).0 ≡ ok
    → IsScheduled calls (slot (some i) (schedule_entry calls i e t).1.entries)
unfolding schedule_entry IsScheduled Agrees
schedule_entry-IsScheduled calls i e t r h n k =
    let stored = telemetry_entry_store calls e t in
    let started : Entry = record e { timer = some (k_seconds e.period_seconds) } in
    let same : i < length stored.entries =
      subst (λ os. i < length os) (sym (store-entries calls e t).0) h in
    (started, ground (arith, write_entry-slot i started stored same), inl (n, refl))

-- A timer that does not count as active is stopped, or is in its last millisecond.
is_active-cases :
    (calls : Calls) (timer : Option Timeout)
    → is_active calls timer ≡ false
    → (timer ≡ none) ⊎ (calls.timer_remaining ≡ false)
unfolding is_active
is_active-cases calls none h = inl refl
is_active-cases calls (some timeout) h = inr h

unschedule_entry-IsScheduled :
    (calls : Calls) (i : ℕ) (e : Entry) (t : Telemetry)
    → slot (some i) t.entries ≡ some e
    → i < length t.entries
    → e.enable ≡ false
    → (unschedule_entry calls i e t).0 ≡ ok
    → IsScheduled calls (slot (some i) (unschedule_entry calls i e t).1.entries)
unfolding unschedule_entry IsScheduled Agrees
unschedule_entry-IsScheduled calls i e t g h n k =
    let stored = telemetry_entry_store calls e t in
    let stopped : Entry = record e { timer = none } in
    let kept : stored.entries ≡ t.entries = (store-entries calls e t).0 in
    let same : i < length stored.entries = subst (λ os. i < length os) (sym kept) h in
    let stands : slot (some i) stored.entries ≡ some e = ap (slot (some i)) kept ∙ g in
    elim (Bool-cases (is_active calls e.timer)) [
      | inl p ↦ (stopped, ground (arith, write_entry-slot i stopped stored same), inr (n, inl refl))
      | inr p ↦ (e, ground (arith, stands), inr (n, is_active-cases calls e.timer p))
    ]

apply_enable-enabled :
    (calls : Calls) (i : ℕ) (e : Entry) (t : Telemetry)
    → e.enable ≡ true
    → apply_enable calls i e t ≡ schedule_entry calls i e t
unfolding apply_enable
apply_enable-enabled calls i e t p = if_true e.enable _ _ p

apply_enable-disabled :
    (calls : Calls) (i : ℕ) (e : Entry) (t : Telemetry)
    → e.enable ≡ false
    → apply_enable calls i e t ≡ unschedule_entry calls i e t
unfolding apply_enable
apply_enable-disabled calls i e t p = if_false e.enable _ _ p

update_entry-IsScheduled :
    (calls : Calls) (i : ℕ) (e : Entry) (t : Telemetry)
    → t.running ≡ true
    → i < length t.entries
    → (update_entry calls i e t).0 ≡ ok
    → IsScheduled calls (slot (some i) (update_entry calls i e t).1.entries)
unfolding update_entry write_entry
update_entry-IsScheduled calls i e t r h k =
    let t' : Telemetry = record t { entries = set t.entries i (some e) } in
    let h' : i < length t'.entries = omega (arith, length-set i (some e) t.entries, h) in
    elim (Bool-cases e.enable) [
      | inl p ↦
          let q = apply_enable-enabled calls i e t' p in
          rw q (schedule_entry-IsScheduled calls i e t' r h' p (rw q at k))
      | inr p ↦
          let q = apply_enable-disabled calls i e t' p in
          rw q
            (unschedule_entry-IsScheduled calls i e t' (write_entry-slot i e t h) h' p (rw q at k))
    ]

-- A set property for a type without an entry, by whether the allocation of one works.
set_type-cases :
    (calls : Calls) (type : ℕ) (endpoint : List ℕ) (v : Data) (t : Telemetry)
    → let e = telemetry_entry_new type (pos 0) false in
      let t' : Telemetry = record t { entries = telemetry_entry_set e t.entries } in
      (set_type calls type endpoint v none t ≡ (telemetry_start_fail, t))
      ⊎ (set_type calls type endpoint v none t
          ≡ update_entry calls (type - 1) (set_endpoint endpoint v e) t')
unfolding set_type
set_type-cases calls type endpoint v t = elim (Bool-cases calls.calloc) [
  | inl p ↦ inr (if_false (not calls.calloc) _ _ (ap not p))
  | inr p ↦ inl (if_true (not calls.calloc) _ _ (ap not p))
]

start_fail-ok : telemetry_start_fail ≢ ok
start_fail-ok e = ground arith

created_entry :
    (calls : Calls) (type : ℕ) (endpoint : List ℕ) (v : Data) (t : Telemetry)
    → t.running ≡ true
    → type - 1 < length t.entries
    → length (telemetry_entry_set (telemetry_entry_new type (pos 0) false) t.entries)
      ≡ length t.entries
    → (set_type calls type endpoint v none t).0 ≡ ok
    → IsScheduled calls (slot (some (type - 1)) (set_type calls type endpoint v none t).1.entries)
created_entry calls type endpoint v t r h m k =
    let e = telemetry_entry_new type (pos 0) false in
    let t' : Telemetry = record t { entries = telemetry_entry_set e t.entries } in
    let h' : type - 1 < length t'.entries = omega (arith, m, h) in
    elim (set_type-cases calls type endpoint v t) [
      | inl p ↦ absurd (start_fail-ok (rw p at k))
      | inr p ↦ rw p (
          update_entry-IsScheduled calls (type - 1) (set_endpoint endpoint v e) t' r h' (rw p at k))
    ]

set_type-IsScheduled :
    (calls : Calls) (type : ℕ) (endpoint : List ℕ) (v : Data) (o : Option Entry) (t : Telemetry)
    → t.running ≡ true
    → type - 1 < length t.entries
    → length (telemetry_entry_set (telemetry_entry_new type (pos 0) false) t.entries)
      ≡ length t.entries
    → (set_type calls type endpoint v o t).0 ≡ ok
    → IsScheduled calls (slot (some (type - 1)) (set_type calls type endpoint v o t).1.entries)
unfolding set_type
set_type-IsScheduled calls type endpoint v (some e) t r h m k =
    update_entry-IsScheduled calls (type - 1) (set_endpoint endpoint v e) t r h k
set_type-IsScheduled calls type endpoint v none t r h m k =
    created_entry calls type endpoint v t r h m k

-- A set property for a known telemetry that succeeds on a running service leaves an entry of that
-- type. If the entry is enabled, its timer was started with the period of the entry. If it is not, the
-- timer is stopped, unless it was running in its last millisecond, where the test of the time left takes
-- it for stopped.
pub config_set_event-IsScheduled :
    (calls : Calls) (path endpoint : List ℕ) (type : ℕ) (v : Data) (t : Telemetry)
    → Slots t.entries
    → t.running ≡ true
    → parse_configuration_event path ≡ some (type, endpoint)
    → (config_set_event calls path v t).0 ≡ ok
    → IsScheduled calls (telemetry_entry_get type (config_set_event calls path v t).1.entries)
unfolding config_set_event set_parsed
config_set_event-IsScheduled calls path endpoint type v t s r e k =
    let (p, q) = parse_configuration_event_lem path e in
    let o = telemetry_entry_get type t.entries in
    let z = telemetry_entry_new type (pos 0) false in
    let h : type - 1 < length t.entries = omega (arith, s.five, p, q) in
    let m = (telemetry_entry_set-Slots z t.entries tt s).five ∙ sym s.five in
    rw (e, telemetry_entry_get_lem type (set_type calls type endpoint v o t).1.entries p q)
      (set_type-IsScheduled calls type endpoint v o t r h m (rw e at k))
