-- ===== src/FileTransfer/Service/State.antt =====
-- The state of the service of file transfers, lib/edgehog_device/include/file_transfer/core.h, and
-- the semaphore `sync_ota_ft_sem` that the service shares with the updates.
use edgehog_zephyr_device.Prelude.{Bool, true, false, List, [], ◌∷◌, ◌++◌}
use edgehog_zephyr_device.FileTransfer.Message.Types.{Message}

-- Where the service's thread stands in `thread_entry_point`: no thread, the test of the outer loop,
-- the wait for a message, the test of the inner loop with the message taken from the queue, the wait
-- for the semaphore, and the transfer.
pub data Phase : Type 0 where
  absent at_loop getting : Phase
  at_wait taking transferring : Message → Phase

-- `edgehog_ft_t` without its callbacks and partitions, and the transfers that came to their end, the
-- oldest first.
pub record Service : Type 0 where
  pub running : Bool
  pub phase : Phase
  pub queue : List Message
  pub handled : List Message

-- The service, the semaphore, and whether an update holds it.
pub record World : Type 0 where
  pub service : Service
  pub sem_free : Bool
  pub ota_holds : Bool

-- The message in the hands of the thread.
unfoldable pub in_hand : Phase → List Message
in_hand (at_wait m) = m ∷ []
in_hand (taking m) = m ∷ []
in_hand (transferring m) = m ∷ []
in_hand _ = []

unfoldable pub is_transferring : Phase → Bool
is_transferring (transferring m) = true
is_transferring _ = false

-- The transfers in their order: those at their end, the one in hand, and those in the queue.
unfoldable pub line : Service → List Message
line s = s.handled ++ (in_hand s.phase ++ s.queue)
