-- ===== src/Telemetry/Slots.antt =====
-- The slots of the telemetry entries (lib/edgehog_device/telemetry_entry.c): which entry stands in
-- which slot, and what a write keeps.
use edgehog_zephyr_device.Prelude.{
  ℕ, zero, suc, ◌+◌, ◌<◌, ◌≡◌, inl, inr, refl, ap, ◌∙◌, subst, Bool, true, false, ◌||◌, List, [],
  ◌∷◌, length, set, Option, none, some, is_zero, is_negative, if◌then◌else◌, Bool-cases, arith,
}
use edgehog_zephyr_device.Telemetry.State.{telemetry_len, Timeout, k_seconds, Config, Entry}
use edgehog_zephyr_device.Telemetry.Entries.{
  get_telemetry_entry_index, slot, put, telemetry_entry_set, telemetry_entry_remove,
  telemetry_entry_exist, load_from_config, telemetry_entry_new,
}

-- A timer that runs has a positive period.
abbrev pub TimerFits : Option Timeout → Type 0
TimerFits none = Unit {0}
TimerFits (some (k_seconds period)) = (is_negative period || is_zero period) ≡ false

-- What may stand in the slot `i`: nothing, or an entry of its type.
abbrev pub SlotFits : ℕ → Option Entry → Type 0
SlotFits i none = Unit {0}
SlotFits i (some e) = (e.type ≡ i + 1) × (i < 4) × TimerFits e.timer

abbrev pub SlotsFit : ℕ → List (Option Entry) → Type 0
SlotsFit i [] = Unit {0}
SlotsFit i (o ∷ os) = SlotFits i o × SlotsFit (i + 1) os

pub set-SlotsFit :
    (k i : ℕ) (o : Option Entry) (os : List (Option Entry))
    → SlotsFit k os
    → SlotFits (k + i) o
    → SlotsFit k (set os i o)
set-SlotsFit k i o [] f g = tt
set-SlotsFit k zero o (p ∷ os) f g = (subst (λ j. SlotFits j o) (omega arith) g, f.1)
set-SlotsFit k (suc i) o (p ∷ os) f g =
    (f.0, set-SlotsFit (k + 1) i o os f.1 (subst (λ j. SlotFits j o) (omega arith) g))

pub slot-SlotFits :
    (k i : ℕ) (os : List (Option Entry)) → SlotsFit k os → SlotFits (k + i) (slot (some i) os)
unfolding slot
slot-SlotFits k i [] f = tt
slot-SlotFits k zero (none ∷ os) f = tt
slot-SlotFits k zero (some e ∷ os) f = subst (λ j. SlotFits j (some e)) (omega arith) f.0
slot-SlotFits k (suc i) (p ∷ os) f =
    subst (λ j. SlotFits j (slot (some i) os)) (omega arith) (slot-SlotFits (k + 1) i os f.1)

pub length-set :
    (i : ℕ) (o : Option Entry) (os : List (Option Entry)) → length (set os i o) ≡ length os
length-set i o [] = refl
length-set zero o (p ∷ os) = refl
length-set (suc i) o (p ∷ os) = ap suc (length-set i o os)

pub slot-set :
    (i : ℕ) (o : Option Entry) (os : List (Option Entry))
    → i < length os
    → slot (some i) (set os i o) ≡ o
unfolding slot
slot-set i o [] h = absurd (omega arith)
slot-set zero none (p ∷ os) h = refl
slot-set zero (some e) (p ∷ os) h = refl
slot-set (suc i) o (p ∷ os) h = slot-set i o os (omega (arith, h))

-- The array has its five slots, and every entry stands in the slot of its type.
pub record Slots (os : List (Option Entry)) : Type 0 where
  pub five : length os ≡ telemetry_len
  pub fit : SlotsFit 0 os

pub set-Slots :
    (i : ℕ) (o : Option Entry) (os : List (Option Entry))
    → Slots os
    → SlotFits i o
    → Slots (set os i o)
set-Slots i o os s f = record {
  five = length-set i o os ∙ s.five;
  fit = set-SlotsFit 0 i o os s.fit (subst (λ j. SlotFits j o) (omega arith) f);
}

pub put-Slots :
    (i : Option ℕ) (o : Option Entry) (os : List (Option Entry))
    → Slots os
    → ((j : ℕ) → i ≡ some j → SlotFits j o)
    → Slots (put i o os)
unfolding put
put-Slots none o os s f = s
put-Slots (some i) o os s f = set-Slots i o os s (f i refl)

pub get_telemetry_entry_index_lem :
    (type : ℕ) {j : ℕ} → get_telemetry_entry_index type ≡ some j → (type ≡ j + 1) × (j < 4)
unfolding get_telemetry_entry_index
get_telemetry_entry_index_lem type e = ground arith

pub telemetry_entry_set-Slots :
    (e : Entry) (os : List (Option Entry))
    → TimerFits e.timer
    → Slots os
    → Slots (telemetry_entry_set e os)
unfolding telemetry_entry_set
telemetry_entry_set-Slots e os f s =
    put-Slots (get_telemetry_entry_index e.type) (some e) os s
      (λ j p. let (a, b) = get_telemetry_entry_index_lem e.type p in (a, b, f))

pub telemetry_entry_remove-Slots :
    (type : ℕ) (os : List (Option Entry)) → Slots os → Slots (telemetry_entry_remove type os)
unfolding telemetry_entry_remove
telemetry_entry_remove-Slots type os s =
    put-Slots (get_telemetry_entry_index type) none os s (λ j p. tt)

pub load_from_config-Slots :
    (calloc : Bool) (configs : List Config) (os : List (Option Entry))
    → Slots os
    → Slots (load_from_config calloc configs os)
unfolding load_from_config
load_from_config-Slots calloc [] os s = s
load_from_config-Slots calloc (c ∷ configs) os s =
    let e = telemetry_entry_new c.type c.period_seconds true in
    elim (Bool-cases (telemetry_entry_exist c.type os)) [
      | inl p ↦ rw p (load_from_config-Slots calloc configs os s)
      | inr p ↦ rw p (
          load_from_config-Slots calloc configs (if calloc then telemetry_entry_set e os else os)
            (chosen calloc))
    ]
  where
    chosen :
        (b : Bool)
        → Slots (
            if b
            then telemetry_entry_set (telemetry_entry_new c.type c.period_seconds true) os
            else os)
    chosen true =
        telemetry_entry_set-Slots (telemetry_entry_new c.type c.period_seconds true) os tt s
    chosen false = s
