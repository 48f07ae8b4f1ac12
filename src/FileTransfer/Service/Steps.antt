-- ===== src/FileTransfer/Service/Steps.antt =====
-- The service of file transfers beside the updates: the calls and the threads of
-- lib/edgehog_device/file_transfer/core.c and the semaphore of lib/edgehog_device/ota.c in every
-- order.
use edgehog_zephyr_device.Prelude.{◌≡◌, true, false, [], ◌∷◌, ◌++◌}
use edgehog_zephyr_device.FileTransfer.Message.Types.{Message}
use edgehog_zephyr_device.FileTransfer.Service.State.{absent, Service, World}
use edgehog_zephyr_device.FileTransfer.Service.Thread.{
  thread_step, StartCalls, start_service, joined, timed_out, failed, stop_request, stop_join,
}

-- `k_msgq_put` of a request.
unfoldable pub put : Message → World → World
put m w = let s = w.service in record w { service = record s { queue = s.queue ++ m ∷ [] } }

-- `k_sem_take` and `k_sem_give` of an update.
unfoldable pub ota_take : World → World
ota_take w = record w { sem_free = false; ota_holds = true }

unfoldable pub ota_give : World → World
ota_give w = record w { sem_free = true; ota_holds = false }

abbrev pub with_service : Service → World → World
with_service s w = record w { service = s }

-- What may happen next. An update waits for the semaphore without a limit; a join ends where the
-- thread has ended, where its time is over, or with an error.
pub data Step : World → World → Type 0 where
  thread : (w : World) → Step w (thread_step w)
  request : (w : World) (m : Message) → w.service.running ≡ true → Step w (put m w)
  take : (w : World) → w.sem_free ≡ true → Step w (ota_take w)
  give : (w : World) → w.ota_holds ≡ true → Step w (ota_give w)
  start :
      (w : World) (calls : StartCalls) → Step w (with_service (start_service calls w.service).1 w)
  stop : (w : World) → w.service.running ≡ true → Step w (with_service (stop_request w.service) w)
  join :
      (w : World)
      → w.service.phase ≡ absent
      → Step w (with_service (stop_join joined w.service).1 w)
  abort : (w : World) → Step w (with_service (stop_join timed_out w.service).1 w)
  no_join : (w : World) → Step w (with_service (stop_join failed w.service).1 w)

pub data Reach (w : World) : World → Type 0 where
  here : Reach w w
  next : {u v : World} → Reach w u → Step u v → Reach w v
