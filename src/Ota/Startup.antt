-- ===== src/Ota/Startup.antt =====
-- What `edgehog_ota_init` (lib/edgehog_device/ota.c) reports and leaves behind.
use edgehog_zephyr_device.Prelude.{
  ◌≡◌, ◌⊎◌, true, false, List, [], ◌∷◌, ◌++◌, none, is_negative, arith,
}
use edgehog_zephyr_device.Result.{ok, ota_swap_fail, ota_internal_error}
use edgehog_zephyr_device.Ota.State.{
  OtaState, idle, reboot, success, failure, FlashImg, Device, Published,
}
use edgehog_zephyr_device.Ota.Publish.{pub_ota_event, save_state, delete_uuid, message}
use edgehog_zephyr_device.Ota.Events.{uuid_chars, uuid_length, clear_thread}
use edgehog_zephyr_device.Ota.Boot.{
  BootOutcomes, SwapType, swap_none, is_swap_none, is_reboot, stored_request, report, ota_init,
}

is_reboot-reboot : (s : OtaState) → is_reboot s ≡ true → s ≡ reboot
is_reboot-reboot s e = ground arith

is_swap_none-none : (s : SwapType) → is_swap_none s ≡ true → s ≡ swap_none
is_swap_none-none s e = ground arith

module _ {F : FlashImg} where
  -- The settings tell of a restart into an image that may be, and is, confirmed.
  unfoldable pub IsConfirmed : BootOutcomes → Device F → Type 0
  IsConfirmed b d =
      (d.stored_state ≡ reboot)
      × (uuid_length d.stored_uuid ≡ uuid_chars)
      × (b.swap_type ≡ swap_none)
      × (b.img_confirmed ≡ false)
      × (is_negative b.write_img_confirmed ≡ false)

  -- What a start publishes: nothing, a failure, or the success of a confirmed image.
  unfoldable pub IsReport : BootOutcomes → Device F → List Published → Type 0
  IsReport b d later =
      let uuid = stored_request d.stored_uuid in
      (later ≡ d.published)
      ⊎ (later ≡ d.published ++ message uuid failure 0 ota_internal_error ∷ [])
      ⊎ (later ≡ d.published ++ message uuid failure 0 ota_swap_fail ∷ [])
      ⊎ (IsConfirmed b d × (later ≡ d.published ++ message uuid success 0 ok ∷ []))

  report-IsReport : (b : BootOutcomes) (d : Device F) → IsReport b d (report b d).published
  unfolding report IsReport IsConfirmed pub_ota_event
  report-IsReport b d =
      ground (arith, is_reboot-reboot d.stored_state, is_swap_none-none b.swap_type)

  -- A start publishes at most one message, and a success only if the stored request has the length
  -- of an identifier, the stored state is that of a restart, no swap is pending and the running
  -- image was not confirmed before and is confirmed now.
  pub ota_init-IsReport : (b : BootOutcomes) (d : Device F) → IsReport b d (ota_init b d).published
  unfolding ota_init save_state delete_uuid clear_thread IsReport IsConfirmed
  ota_init-IsReport b d = ground (arith, reported)
    where
      cleared : Device F
      cleared = clear_thread d

      reported : IsReport b d (report b cleared).published
      reported = report-IsReport b cleared

  -- A start whose accesses to the settings work leaves no update running and none in the settings.
  pub ota_init-idle :
      (b : BootOutcomes) (d : Device F)
      → b.settings_load ≡ true
      → b.delete_uuid ≡ true
      → b.save_idle ≡ true
      → let d' = ota_init b d in
        (d'.running ≡ false) × (d'.stored_uuid ≡ none) × (d'.stored_state ≡ idle)
  unfolding ota_init save_state delete_uuid clear_thread report pub_ota_event
  ota_init-idle b d l u s = ground arith
