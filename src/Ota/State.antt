-- ===== src/Ota/State.antt =====
-- What lib/edgehog_device/ota.c keeps of an update, what it publishes, and the services that it calls:
-- the flash image writer of the operating system, the boot loader and the settings. A call that may
-- fail is given by its outcome.
use edgehog_zephyr_device.Prelude.{
  ℕ, ◌+◌, ◌<◌, ◌≤◌, ◌≡◌, Bool, true, false, List, Option, ℤ, is_negative,
}
use edgehog_zephyr_device.Result.{EdgehogResult}

-- OTA_STATE_RUN_BIT stands in `Device.running`; these are the states kept in the settings.
pub data OtaState : Type 0 where
  idle in_progress reboot : OtaState

pub data OtaEvent : Type 0 where
  acknowledged downloading deploying deployed rebooting success error failure : OtaEvent

-- The status codes of the messages to the server.
pub data StatusCode : Type 0 where
  no_code invalid_request update_already_in_progress error_network io_error : StatusCode
  invalid_base_image system_rollback canceled internal : StatusCode

-- What is put on the application's channel.
pub data ChannelEvent : Type 0 where
  init_event pending_reboot_event success_event failed_event : ChannelEvent

-- One call of `pub_ota_event`, without the message text and the time stamp.
pub record Published : Type 0 where
  pub uuid : List ℕ
  pub event : OtaEvent
  pub progress : ℕ
  pub code : StatusCode
  pub channel : Option ChannelEvent

-- `flash_img_init`, `flash_img_buffered_write` and `flash_img_bytes_written`, with the context that
-- `memset` leaves. A context accepts the
-- bytes of an image one after the other and gives none back, and a write with the flush flag leaves none in its buffer.
pub record FlashImg : Type 1 where
  pub Ctx : Type 0
  pub zero_ctx : Ctx
  pub init_ctx : Ctx
  pub accepted : Ctx → ℕ
  pub bytes_written : Ctx → ℕ
  pub buffered_write : Ctx → ℕ → Bool → ℤ × Ctx
  pub init_accepted : accepted init_ctx ≡ 0
  pub write_accepts :
      (c : Ctx) (n : ℕ) (flush : Bool)
      → is_negative (buffered_write c n flush).0 ≡ false
      → accepted (buffered_write c n flush).1 ≡ accepted c + n
  pub write_keeps :
      (c : Ctx) (n : ℕ) (flush : Bool) → accepted c ≤ accepted (buffered_write c n flush).1
  pub flush_writes :
      (c : Ctx) (n : ℕ)
      → is_negative (buffered_write c n true).0 ≡ false
      → bytes_written (buffered_write c n true).1 ≡ accepted (buffered_write c n true).1

module _ (F : FlashImg) where
  -- `ota_thread_data_t`, the settings of the update, the messages sent so far (oldest first), and
  -- whether `sync_ota_ft_sem` is free.
  pub record Device : Type 0 where
    pub running : Bool
    pub uuid : List ℕ
    pub download_url : List ℕ
    pub flash_ctx : FlashImg.Ctx F
    pub download_size : ℕ
    pub image_size : ℕ
    pub last_perc_sent : ℕ
    pub stored_state : OtaState
    pub stored_uuid : Option (List ℕ)
    pub published : List Published
    pub sem_free : Bool

-- `edgehog_http_response_chunk_t`, without the bytes themselves, of a response that gives its length:
-- `ota.c` divides by the length, and what the processor does at a division by 0 is left out.
pub record Chunk : Type 0 where
  pub chunk_size : ℕ
  pub response_size : ℕ
  pub last_chunk : Bool
  pub has_length : 0 < response_size

-- What happens while a download runs: a chunk arrives, or the server cancels the update.
pub data Delivery : Type 0 where
  chunk : Chunk → Delivery
  cancel : Delivery

-- One download: what arrives, and whether the HTTP client reports a failure of its own.
pub record Attempt : Type 0 where
  pub deliveries : List Delivery
  pub http_failed : Bool

-- The outcomes of the calls that the update thread makes: the saves of the state in their order. The
-- flag `cancel_late` says that the server cancels the update, with success, after the thread's last
-- test of the run bit: while it deploys the image or waits for the restart. An update that the server
-- asks for after such a cancellation is left out.
pub record Outcomes : Type 0 where
  pub settings_init : Bool
  pub save_in_progress : Bool
  pub save_reboot : Bool
  pub save_failed : Bool
  pub save_idle : Bool
  pub save_uuid : EdgehogResult
  pub delete_uuid : Bool
  pub erase_img_bank : ℤ
  pub flash_init : ℤ
  pub attempts : ℕ → Attempt
  pub read_bank_header : ℤ
  pub request_upgrade : ℤ
  pub cancel_late : Bool
