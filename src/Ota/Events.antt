-- ===== src/Ota/Events.antt =====
-- The requests of the server in lib/edgehog_device/ota.c: `edgehog_ota_event` with the update and
-- the cancellation.
use edgehog_zephyr_device.Prelude.{
  ℕ, ◌==◌, Bool, true, false, not, List, [], ◌∷◌, length, Option, none, some, if◌then◌else◌,
  bytes_eq, codes, c_string,
}
use edgehog_zephyr_device.Result.{
  EdgehogResult, ok, out_of_memory, ota_invalid_request, ota_already_in_progress,
  thread_create_error, ota_internal_error,
}
use edgehog_zephyr_device.Ota.State.{failure, FlashImg, Device}
use edgehog_zephyr_device.Ota.Publish.{pub_ota_event}

-- UUID_STR_LEN - 1, the characters of a UUID.
abbrev pub uuid_chars : ℕ
uuid_chars = 36

-- An entry of the object that the server sends: every value is read as a string.
pub record Entry : Type 0 where
  pub path : List ℕ
  pub string : List ℕ

-- The outcomes of the calls that an event makes.
pub record EventOutcomes : Type 0 where
  pub calloc_uuid : Bool
  pub calloc_url : Bool
  pub thread_create : Bool
  pub settings_init : Bool
  pub settings_load : Bool

-- The last entry of a path, as the loop over the entries leaves it.
unfoldable pub last_value : List ℕ → List Entry → Option (List ℕ)
last_value path [] = none
last_value path (e ∷ rest) =
    let later = last_value path rest in
    or_earlier later (if bytes_eq e.path path then some e.string else none)
  where
    or_earlier : Option (List ℕ) → Option (List ℕ) → Option (List ℕ)
    or_earlier (some v) _ = some v
    or_earlier none earlier = earlier

-- `strlen` of a string, which is empty where the settings hold none.
unfoldable pub uuid_length : Option (List ℕ) → ℕ
uuid_length none = 0
uuid_length (some uuid) = length (c_string uuid)

module _ {F : FlashImg} where
  -- `memset` of the thread's data.
  unfoldable pub clear_thread : Device F → Device F
  clear_thread d = record d {
    running = false;
    uuid = [];
    download_url = [];
    flash_ctx = FlashImg.zero_ctx F;
    download_size = 0;
    image_size = 0;
    last_perc_sent = 0;
  }

  unfoldable pub event_update :
      EventOutcomes → List ℕ → List ℕ → Device F → EdgehogResult × Device F
  event_update o uuid url d =
      let cleared = clear_thread d in
      let named = record cleared { uuid = uuid } in
      let filled = record named { download_url = url } in
      let running = record filled { running = true } in
      if d.running
      then (ota_already_in_progress, pub_ota_event uuid failure 0 ota_already_in_progress d)
      else if not o.calloc_uuid
      then (out_of_memory, cleared)
      else if not o.calloc_url
      then (out_of_memory, named)
      else if filled.running
      then (out_of_memory, running)
      else if not o.thread_create
      then (thread_create_error, pub_ota_event uuid failure 0 ota_internal_error running)
      else (ok, running)

  unfoldable pub event_cancel : EventOutcomes → List ℕ → Device F → EdgehogResult × Device F
  event_cancel o uuid d =
      let failed : EdgehogResult × Device F =
        (ota_internal_error, pub_ota_event uuid failure 0 ota_internal_error d) in
      if not d.running
      then (ota_invalid_request, pub_ota_event uuid failure 0 ota_invalid_request d)
      else if not o.settings_init
      then failed
      else if not o.settings_load
      then failed
      else if not (uuid_length d.stored_uuid == uuid_chars)
      then failed
      else (ok, record d { running = false })

  -- `edgehog_ota_event` once a UUID of the right length and an operation are there.
  unfoldable pub ota_operation :
      EventOutcomes → List ℕ → Option (List ℕ) → List ℕ → Device F → EdgehogResult × Device F
  ota_operation o uuid url operation d =
      if bytes_eq (codes "Update") operation
      then with_url url
      else if bytes_eq (codes "Cancel") operation
      then event_cancel o uuid d
      else (ota_invalid_request, pub_ota_event uuid failure 0 ota_invalid_request d)
    where
      with_url : Option (List ℕ) → EdgehogResult × Device F
      with_url none = (ota_invalid_request, d)
      with_url (some u) = event_update o uuid u d

  unfoldable pub with_request :
      EventOutcomes
      → Option (List ℕ)
      → Option (List ℕ)
      → Option (List ℕ)
      → Device F
      → EdgehogResult × Device F
  with_request o (some uuid) url (some operation) d =
      if length uuid == uuid_chars
      then ota_operation o uuid url operation d
      else (ota_invalid_request, d)
  with_request o _ url _ d = (ota_invalid_request, d)

  -- `edgehog_ota_event` of an object.
  unfoldable pub ota_event : EventOutcomes → List Entry → Device F → EdgehogResult × Device F
  ota_event o entries d =
      with_request o (last_value (codes "uuid") entries) (last_value (codes "url") entries)
        (last_value (codes "operation") entries) d
