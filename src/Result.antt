-- ===== src/Result.antt =====
-- The result codes of include/edgehog_device/result.h.
use edgehog_zephyr_device.Prelude.{Bool, true, false}

pub data EdgehogResult : Type 0 where
  ok internal_error invalid_configuration astarte_error : EdgehogResult
  out_of_memory network_error nvs_error ota_invalid_request : EdgehogResult
  http_request_error ota_already_in_progress ota_invalid_image ota_erase_second_slot_error :
      EdgehogResult
  ota_init_flash_error ota_write_flash_error ota_system_rollback ota_canceled : EdgehogResult
  ota_internal_error ota_swap_fail device_not_ready thread_create_error : EdgehogResult
  command_invalid_request led_node_not_found led_device_is_not_ready led_already_in_progress :
      EdgehogResult
  led_configure_error wifi_scan_request_fail settings_init_fail settings_load_fail : EdgehogResult
  settings_save_fail settings_delete_fail telemetry_start_fail telemetry_store_fail : EdgehogResult
  telemetry_stop_timeout telemetry_stop_fail invalid_param http_request_aborted : EdgehogResult
  file_transfer_start_fail file_transfer_stop_timeout file_transfer_invalid_request
        file_transfer_queue_error :
      EdgehogResult
  parse_url_error http_request_invalid_headers flash_error zms_error : EdgehogResult

abbrev pub is_ok : EdgehogResult → Bool
is_ok ok = true
is_ok _ = false
