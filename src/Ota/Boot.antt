-- ===== src/Ota/Boot.antt =====
-- The start of the update service, `edgehog_ota_init` of lib/edgehog_device/ota.c.
use edgehog_zephyr_device.Prelude.{
  ℕ, ◌==◌, Bool, true, false, not, List, [], Option, none, some, ℤ, is_negative, if◌then◌else◌,
  c_string,
}
use edgehog_zephyr_device.Result.{ok, ota_internal_error, ota_swap_fail}
use edgehog_zephyr_device.Ota.State.{OtaState, idle, reboot, success, failure, FlashImg, Device}
use edgehog_zephyr_device.Ota.Publish.{pub_ota_event, save_state, delete_uuid}
use edgehog_zephyr_device.Ota.Events.{uuid_chars, uuid_length, clear_thread}

-- `mcuboot_swap_type`.
pub data SwapType : Type 0 where
  swap_none swap_test swap_perm swap_revert swap_fail : SwapType

abbrev pub is_swap_none : SwapType → Bool
is_swap_none swap_none = true
is_swap_none _ = false

abbrev pub is_reboot : OtaState → Bool
is_reboot reboot = true
is_reboot _ = false

-- The outcomes of the calls at the start.
pub record BootOutcomes : Type 0 where
  pub settings_load : Bool
  pub swap_type : SwapType
  pub img_confirmed : Bool
  pub write_img_confirmed : ℤ
  pub delete_uuid : Bool
  pub save_idle : Bool

-- The UUID of the settings, cut at its terminator.
unfoldable pub stored_request : Option (List ℕ) → List ℕ
stored_request none = []
stored_request (some uuid) = c_string uuid

module _ {F : FlashImg} where
  -- What is published of the update that the settings tell of.
  unfoldable pub report : BootOutcomes → Device F → Device F
  report o d =
      let uuid = stored_request d.stored_uuid in
      if not (uuid_length d.stored_uuid == uuid_chars)
      then d
      else if not (is_reboot d.stored_state)
      then pub_ota_event uuid failure 0 ota_internal_error d
      else if not (is_swap_none o.swap_type)
      then pub_ota_event uuid failure 0 ota_swap_fail d
      else if o.img_confirmed
      then pub_ota_event uuid failure 0 ota_swap_fail d
      else if is_negative o.write_img_confirmed
      then pub_ota_event uuid failure 0 ota_internal_error d
      else pub_ota_event uuid success 0 ok d

  unfoldable pub ota_init : BootOutcomes → Device F → Device F
  ota_init o d =
      let cleared = clear_thread d in
      if not o.settings_load
      then cleared
      else save_state o.save_idle idle (delete_uuid o.delete_uuid (report o cleared))
