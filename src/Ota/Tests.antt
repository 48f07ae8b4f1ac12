-- ===== src/Ota/Tests.antt =====
-- The update service of lib/edgehog_device/ota.c at concrete inputs: a flash writer with a buffer, an
-- image of twelve bytes in two chunks, and the events of one update.
use edgehog_zephyr_device.Prelude.{
  ℕ, ◌+◌, ◌*◌, ◌%◌, ◌≤◌, ◌<◌, ◌≡◌, ◌≢◌, ◌⊎◌, refl, Bool, true, false, List, [], ◌∷◌, ◌++◌, length,
  none, ℤ, codes, c_string, arith,
}
use edgehog_zephyr_device.Result.{
  ok, ota_already_in_progress, thread_create_error, ota_canceled, http_request_error,
}
use edgehog_zephyr_device.Ota.State.{
  idle, success, FlashImg, Device, Chunk, chunk, Attempt, Outcomes,
}
use edgehog_zephyr_device.Ota.Publish.{pub_ota_event, save_state, delete_uuid, message}
use edgehog_zephyr_device.Ota.Download.{
  http_download_payload_cbk, deliver, http_get, perform_ota_attempt, attempt_loop,
  rounded_percentage,
}
use edgehog_zephyr_device.Ota.Thread.{
  restarted, finished, perform_ota, late_cancel, selfdestruct, deploy, give_up, download_and_deploy,
  ota_thread,
}
use edgehog_zephyr_device.Ota.Events.{
  Entry, EventOutcomes, uuid_chars, clear_thread, event_update, event_cancel, ota_event, last_value,
  with_request, ota_operation,
}
use edgehog_zephyr_device.Ota.Boot.{BootOutcomes, swap_none, ota_init}
use edgehog_zephyr_device.Prelude.{pos, negsuc}
use edgehog_zephyr_device.Ota.Complete.{IsRestarted, ota_thread-IsComplete}
use edgehog_zephyr_device.Ota.Cleanup.{
  IsReleased, IsForgotten, ota_thread-IsReleased, ota_thread-IsForgotten,
}
use edgehog_zephyr_device.Ota.Retry.{IsDownload, final_chunk, next_chunk, attempt_loop-stuck}
use edgehog_zephyr_device.Ota.Restart.{ota_thread-ota_init}
use edgehog_zephyr_device.Ota.Requests.{
  event_update-stuck, perform_ota_attempt-canceled, IsStarted, IsStopped, ota_event-ok, SameImage,
}
use edgehog_zephyr_device.Ota.Startup.{IsReport, ota_init-IsReport, ota_init-idle}
use edgehog_zephyr_device.Ota.Percentage.{rounded_percentage-floor}

-- A writer that keeps the bytes written and the bytes in its buffer.
unfoldable write_buffered : ℕ × ℕ → ℕ → Bool → ℤ × (ℕ × ℕ)
write_buffered (written, buffered) n true = (pos 0, (written + buffered + n, 0))
write_buffered (written, buffered) n false = (pos 0, (written, buffered + n))

abbrev total : ℕ × ℕ → ℕ
total (written, buffered) = written + buffered

write_buffered-accepts :
    (c : ℕ × ℕ) (n : ℕ) (flush : Bool) → total (write_buffered c n flush).1 ≡ total c + n
unfolding write_buffered
write_buffered-accepts c n true = omega arith
write_buffered-accepts c n false = omega arith

write_buffered-flushes :
    (c : ℕ × ℕ) (n : ℕ) → (write_buffered c n true).1.0 ≡ total (write_buffered c n true).1
unfolding write_buffered
write_buffered-flushes c n = omega arith

abbrev buffered : FlashImg
buffered = record {
  Ctx = ℕ × ℕ;
  zero_ctx = (0, 0);
  init_ctx = (0, 0);
  accepted = total;
  bytes_written = λ c. c.0;
  buffered_write = write_buffered;
  init_accepted = refl;
  write_accepts = λ c n flush e. write_buffered-accepts c n flush;
  write_keeps = λ c n flush. omega (arith, write_buffered-accepts c n flush);
  flush_writes = λ c n e. write_buffered-flushes c n;
}

abbrev uuid : List ℕ
uuid = codes "12345678-1234-1234-1234-123456789abc"

abbrev url : List ℕ
url = codes "http://host/image.bin"

-- A device whose update has just been asked for.
abbrev device : Device buffered
device = record {
  running = true;
  uuid = uuid;
  download_url = url;
  flash_ctx = (0, 0);
  download_size = 0;
  image_size = 0;
  last_perc_sent = 0;
  stored_state = idle;
  stored_uuid = none;
  published = [];
  sem_free = true;
}

abbrev first_chunk : Chunk
first_chunk = record {
  chunk_size = 8;
  response_size = 12;
  last_chunk = false;
  has_length = omega arith;
}

abbrev second_chunk : Chunk
second_chunk = record {
  chunk_size = 4;
  response_size = 12;
  last_chunk = true;
  has_length = omega arith;
}

-- The whole image.
abbrev whole : Attempt
whole = record { deliveries = chunk first_chunk ∷ chunk second_chunk ∷ []; http_failed = false }

whole-IsDownload : IsDownload 12 12 whole.deliveries
whole-IsDownload = next_chunk first_chunk 4 _ refl (final_chunk second_chunk refl refl)

abbrev working : Outcomes
working = record {
  settings_init = true;
  save_in_progress = true;
  save_reboot = true;
  save_failed = true;
  save_idle = true;
  save_uuid = ok;
  delete_uuid = true;
  erase_img_bank = pos 0;
  flash_init = pos 0;
  attempts = λ i. whole;
  read_bank_header = pos 0;
  request_upgrade = pos 0;
  cancel_late = false;
}

abbrev no_header : Outcomes
no_header = record working { read_bank_header = negsuc 4 }

thread_restarts : (ota_thread buffered working device).0 ≡ restarted
unfolding ota_thread download_and_deploy perform_ota late_cancel deploy give_up selfdestruct
    attempt_loop perform_ota_attempt http_get deliver http_download_payload_cbk pub_ota_event
    save_state delete_uuid rounded_percentage write_buffered
thread_restarts = refl

thread_finishes : (ota_thread buffered no_header device).0 ≡ finished
unfolding ota_thread download_and_deploy perform_ota late_cancel deploy give_up selfdestruct
    attempt_loop perform_ota_attempt http_get deliver http_download_payload_cbk pub_ota_event
    save_state delete_uuid rounded_percentage write_buffered
thread_finishes = refl

ota_thread-IsComplete_example : IsRestarted working (ota_thread buffered working device).1
ota_thread-IsComplete_example = ota_thread-IsComplete working device thread_restarts

ota_thread-IsReleased_example : IsReleased (ota_thread buffered no_header device).1
ota_thread-IsReleased_example = ota_thread-IsReleased no_header device thread_finishes

ota_thread-IsForgotten_example : IsForgotten (ota_thread buffered no_header device).1
ota_thread-IsForgotten_example = ota_thread-IsForgotten no_header device refl refl thread_finishes

abbrev after_restart : BootOutcomes
after_restart = record {
  settings_load = true;
  swap_type = swap_none;
  img_confirmed = false;
  write_img_confirmed = pos 0;
  delete_uuid = true;
  save_idle = true;
}

uuid_fits : length (c_string uuid) ≡ uuid_chars
uuid_fits = refl

ota_thread-ota_init_example :
    (ota_init after_restart (ota_thread buffered working device).1).published
    ≡ (ota_thread buffered working device).1.published ++ message (c_string uuid) success 0 ok ∷ []
ota_thread-ota_init_example =
    ota_thread-ota_init working after_restart device thread_restarts refl uuid_fits refl refl refl
      refl

ota_init-IsReport_example : IsReport after_restart device (ota_init after_restart device).published
ota_init-IsReport_example = ota_init-IsReport after_restart device

ota_init-idle_example :
    let d = ota_init after_restart device in
    (d.running ≡ false) × (d.stored_uuid ≡ none) × (d.stored_state ≡ idle)
ota_init-idle_example = ota_init-idle after_restart device refl refl refl

-- The device once a first attempt has stopped behind the first chunk.
abbrev interrupted : Device buffered
interrupted = record device { flash_ctx = (0, 8) }

attempt_loop-stuck_example :
    (attempt_loop buffered (λ i. whole) 4 1 http_request_error interrupted).0 ≢ ok
attempt_loop-stuck_example =
    attempt_loop-stuck (λ i. 12) (λ i. whole) 4 1 http_request_error interrupted
      (λ i. whole-IsDownload) refl (omega arith)

-- The cancellation arrived.
abbrev canceled_device : Device buffered
canceled_device = record device { running = false }

perform_ota_attempt-canceled_example :
    ((perform_ota_attempt buffered whole canceled_device).0 ≡ ota_canceled)
    × SameImage (perform_ota_attempt buffered whole canceled_device).1 canceled_device
perform_ota_attempt-canceled_example = perform_ota_attempt-canceled whole canceled_device refl

abbrev calls : EventOutcomes
calls = record {
  calloc_uuid = true;
  calloc_url = true;
  thread_create = true;
  settings_init = true;
  settings_load = true;
}

abbrev no_thread : EventOutcomes
no_thread = record calls { thread_create = false }

abbrev update_event : List Entry
update_event =
    record { path = codes "uuid"; string = uuid }
    ∷ record { path = codes "url"; string = url }
    ∷ record { path = codes "operation"; string = codes "Update" }
    ∷ []

update_starts : (ota_event calls update_event canceled_device).0 ≡ ok
unfolding ota_event with_request ota_operation event_update event_cancel clear_thread last_value
    pub_ota_event
update_starts = refl

ota_event-ok_example :
    let d = (ota_event calls update_event canceled_device).1 in
    IsStarted update_event canceled_device d ⊎ IsStopped update_event canceled_device d
ota_event-ok_example = ota_event-ok calls update_event canceled_device update_starts

creation_fails : (event_update no_thread uuid url canceled_device).0 ≡ thread_create_error
unfolding event_update clear_thread pub_ota_event
creation_fails = refl

event_update-stuck_example :
    (event_update calls uuid url (event_update no_thread uuid url canceled_device).1).0
    ≡ ota_already_in_progress
event_update-stuck_example =
    event_update-stuck no_thread calls uuid uuid url url canceled_device creation_fails

rounded_percentage-floor_example :
    let p = rounded_percentage 8 12 in
    (p % 10 ≡ 0) × (p ≤ 100) × (p * 12 ≤ 100 * 8) × (100 * 8 < (p + 10) * 12)
rounded_percentage-floor_example =
    rounded_percentage-floor 8 12 (omega arith) (omega arith) (omega arith)

-- One byte more than the bound, and the percentage of a finished download is 0.
overflow : rounded_percentage 42949673 42949673 ≡ 0
unfolding rounded_percentage
overflow = refl
