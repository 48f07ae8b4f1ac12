-- ===== src/Ota/Publish.antt =====
-- `pub_ota_event` and the settings accesses of lib/edgehog_device/ota.c.
use edgehog_zephyr_device.Prelude.{ℕ, Bool, List, [], ◌∷◌, ◌++◌, Option, none, some, if◌then◌else◌}
use edgehog_zephyr_device.Result.{
  EdgehogResult, ok, ota_invalid_request, ota_already_in_progress, network_error,
  settings_init_fail, settings_save_fail, settings_load_fail, settings_delete_fail,
  ota_invalid_image, ota_system_rollback, ota_canceled,
}
use edgehog_zephyr_device.Ota.State.{
  OtaState, OtaEvent, acknowledged, rebooting, success, error, failure, StatusCode, no_code,
  invalid_request, update_already_in_progress, error_network, io_error, invalid_base_image,
  system_rollback, canceled, internal, ChannelEvent, init_event, pending_reboot_event,
  success_event, failed_event, Published, FlashImg, Device,
}

abbrev pub channel_event : OtaEvent → Option ChannelEvent
channel_event acknowledged = some init_event
channel_event rebooting = some pending_reboot_event
channel_event success = some success_event
channel_event failure = some failed_event
channel_event error = some failed_event
channel_event _ = none

abbrev pub status_code : EdgehogResult → StatusCode
status_code ok = no_code
status_code ota_invalid_request = invalid_request
status_code ota_already_in_progress = update_already_in_progress
status_code network_error = error_network
status_code settings_init_fail = io_error
status_code settings_save_fail = io_error
status_code settings_load_fail = io_error
status_code settings_delete_fail = io_error
status_code ota_invalid_image = invalid_base_image
status_code ota_system_rollback = system_rollback
status_code ota_canceled = canceled
status_code _ = internal

abbrev pub message : List ℕ → OtaEvent → ℕ → EdgehogResult → Published
message uuid event progress result = record {
  uuid = uuid;
  event = event;
  progress = progress;
  code = status_code result;
  channel = channel_event event;
}

module _ {F : FlashImg} where
  unfoldable pub pub_ota_event : List ℕ → OtaEvent → ℕ → EdgehogResult → Device F → Device F
  pub_ota_event uuid event progress result d = record d {
    published = d.published ++ message uuid event progress result ∷ [];
  }

  -- A save that fails leaves the settings as they were; the thread does not look at the result.
  unfoldable pub save_state : Bool → OtaState → Device F → Device F
  save_state works s d = if works then record d { stored_state = s } else d

  unfoldable pub delete_uuid : Bool → Device F → Device F
  delete_uuid works d = if works then record d { stored_uuid = none } else d
