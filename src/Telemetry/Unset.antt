-- ===== src/Telemetry/Unset.antt =====
-- The period of an enabled telemetry is unset (`edgehog_telemetry_config_unset_event`,
-- lib/edgehog_device/telemetry.c).
use edgehog_zephyr_device.Prelude.{
  ℕ, ◌-◌, ◌<◌, ◌≡◌, refl, ap, ◌∙◌, true, false, ◌||◌, List, [], ◌∷◌, length, some, negsuc, is_zero,
  is_negative, codes, if_true, if_false, arith,
}
use edgehog_zephyr_device.Result.{telemetry_start_fail}
use edgehog_zephyr_device.Telemetry.State.{Config, Entry, Telemetry, Calls}
use edgehog_zephyr_device.Telemetry.Entries.{telemetry_entry_get}
use edgehog_zephyr_device.Telemetry.Schedule.{
  write_entry, schedule_entry, apply_enable, is_invalid_type,
}
use edgehog_zephyr_device.Telemetry.Events.{
  unset_endpoint, update_entry, unset_type, unset_parsed, config_unset_event,
  parse_configuration_event,
}
use edgehog_zephyr_device.Telemetry.Slots.{Slots, slot-set}
use edgehog_zephyr_device.Telemetry.Entries.{type_is_in_config, get_period_from_config}
use edgehog_zephyr_device.Telemetry.Invariant.{
  telemetry_entry_get_lem, parse_configuration_event_lem, got-SlotFits,
}

get_period_from_config_none :
    (type : ℕ) (configs : List Config)
    → type_is_in_config type configs ≡ false
    → get_period_from_config type configs ≡ negsuc 0
unfolding type_is_in_config get_period_from_config
get_period_from_config_none type [] e = refl
get_period_from_config_none type (c ∷ configs) e =
    ground (arith, get_period_from_config_none type configs)

-- An enabled entry with a negative period is written back, and the scheduling fails.
update_entry-negative :
    (calls : Calls) (i : ℕ) (e : Entry) (t : Telemetry)
    → e.enable ≡ true
    → 0 < e.type
    → e.type < 5
    → e.period_seconds ≡ negsuc 0
    → update_entry calls i e t ≡ (telemetry_start_fail, write_entry i e t)
unfolding update_entry apply_enable schedule_entry is_invalid_type
update_entry-negative calls i e t n p q m =
    if_true e.enable _ _ n
    ∙ if_false (is_invalid_type e.type) _ _ (ground arith)
    ∙ if_true (is_negative e.period_seconds || is_zero e.period_seconds) _ _ (rw m refl)

-- Once the server unsets the period of an enabled telemetry that the user did not configure, the event
-- fails, and the entry keeps the timer that it had, with -1 for its period.
pub config_unset_event-timer :
    (calls : Calls) (path : List ℕ) (type : ℕ) (e : Entry) (t : Telemetry)
    → Slots t.entries
    → parse_configuration_event path ≡ some (type, codes "periodSeconds")
    → telemetry_entry_get type t.entries ≡ some e
    → e.enable ≡ true
    → type_is_in_config type t.configs ≡ false
    → let r = config_unset_event calls path t in
      (r.0 ≡ telemetry_start_fail)
      × (telemetry_entry_get type r.1.entries ≡ some (record e { period_seconds = negsuc 0 }))
unfolding config_unset_event unset_parsed unset_type unset_endpoint write_entry
config_unset_event-timer calls path type e t s f g n c =
    let (p, q) = parse_configuration_event_lem path f in
    let fits = got-SlotFits type t.entries (some e) p q s g in
    let typed : e.type ≡ type = omega (arith, fits, p) in
    let e' : Entry = record e { period_seconds = negsuc 0 } in
    let unset : get_period_from_config e.type t.configs ≡ negsuc 0 =
      rw typed (get_period_from_config_none type t.configs c) in
    let changed : unset_endpoint (codes "periodSeconds") t.configs e ≡ e' =
      ap (λ x. record e { period_seconds = x }) unset in
    let ended : config_unset_event calls path t
        ≡ (telemetry_start_fail, write_entry (type - 1) e' t) =
      ap (λ x. unset_parsed calls x t) f
      ∙ ap (λ o. unset_type calls type (codes "periodSeconds") o t) g
      ∙ ap (λ x. update_entry calls (type - 1) x t) changed
      ∙ update_entry-negative calls (type - 1) e' t n (omega (arith, typed, p))
          (omega (arith, typed, q)) refl in
    let inside : type - 1 < length t.entries = omega (arith, s.five, p, q) in
    let written = slot-set (type - 1) (some e') t.entries inside in
    rw ended
      (refl, telemetry_entry_get_lem type (write_entry (type - 1) e' t).entries p q ∙ written)
