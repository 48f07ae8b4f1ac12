-- ===== src/Ota/Thread.antt =====
-- The update thread of lib/edgehog_device/ota.c: `perform_ota` and `ota_thread_entry_point`.
use edgehog_zephyr_device.Prelude.{true, false, not, some, is_zero, if◌then◌else◌}
use edgehog_zephyr_device.Result.{
  EdgehogResult, ok, is_ok, ota_erase_second_slot_error, ota_init_flash_error, settings_init_fail,
  ota_internal_error,
}
use edgehog_zephyr_device.Ota.State.{
  idle, in_progress, reboot, acknowledged, deploying, deployed, rebooting, failure, FlashImg,
  Device, Outcomes,
}
use edgehog_zephyr_device.Ota.Publish.{pub_ota_event, save_state, delete_uuid}
use edgehog_zephyr_device.Ota.Download.{max_ota_retry, attempt_loop}

-- How a run of the thread ends: it waits for the file transfer, the device restarts, or it gives up.
pub data ThreadEnd : Type 0 where
  waiting restarted finished : ThreadEnd

module _ (F : FlashImg) where
  unfoldable pub perform_ota : Outcomes → Device F → EdgehogResult × Device F
  perform_ota o d =
      let d' : Device F = record d { flash_ctx = FlashImg.init_ctx F; stored_uuid = some d.uuid } in
      if not (is_zero o.erase_img_bank)
      then (ota_erase_second_slot_error, d)
      else if not (is_zero o.flash_init)
      then (ota_init_flash_error, d)
      else if not (is_ok o.save_uuid)
      then (o.save_uuid, record d { flash_ctx = FlashImg.init_ctx F })
      else attempt_loop F o.attempts max_ota_retry 0 ok d'

  -- The label `selfdestruct`.
  unfoldable pub selfdestruct : Outcomes → Device F → Device F
  selfdestruct o d =
      record (save_state o.save_idle idle
        (delete_uuid o.delete_uuid (record d { running = false }))) { sem_free = true }

  -- A cancellation that comes too late clears the run bit, which nobody tests any more.
  unfoldable pub late_cancel : Outcomes → Device F → Device F
  late_cancel o d = record d { running = if o.cancel_late then false else d.running }

  -- The thread once an image is in the secondary slot.
  unfoldable pub deploy : Outcomes → Device F → ThreadEnd × Device F
  deploy o d =
      let ready =
        save_state o.save_reboot reboot (late_cancel o (pub_ota_event d.uuid deploying 0 ok d)) in
      let failed = selfdestruct o (pub_ota_event d.uuid failure 0 ota_internal_error ready) in
      if not (is_zero o.read_bank_header)
      then (finished, failed)
      else if not (is_zero o.request_upgrade)
      then (finished, failed)
      else (
        restarted,
        pub_ota_event d.uuid rebooting 0 ok (pub_ota_event d.uuid deployed 0 ok ready),
      )

  unfoldable pub give_up : Outcomes → EdgehogResult → Device F → ThreadEnd × Device F
  give_up o result d = (
    finished,
    selfdestruct o (save_state o.save_failed idle (pub_ota_event d.uuid failure 0 result d)),
  )

  unfoldable pub download_and_deploy : Outcomes → Device F → ThreadEnd × Device F
  download_and_deploy o d =
      let (res, d') = perform_ota o (save_state o.save_in_progress in_progress d) in
      if is_ok res then deploy o d' else give_up o res d'

  -- `ota_thread_entry_point`. The semaphore is taken once it is free.
  unfoldable pub ota_thread : Outcomes → Device F → ThreadEnd × Device F
  ota_thread o d =
      let started = pub_ota_event d.uuid acknowledged 0 ok (record d { sem_free = false }) in
      if not d.sem_free
      then (waiting, d)
      else if not o.settings_init
      then (finished, selfdestruct o (pub_ota_event d.uuid failure 0 settings_init_fail started))
      else download_and_deploy o started
