-- ===== src/FileTransfer/Service/Semaphore.antt =====
-- The semaphore of lib/edgehog_device/ota.c and lib/edgehog_device/file_transfer/core.c in every
-- order of the calls and threads: who holds it, and what an aborted transfer leaves.
use edgehog_zephyr_device.Prelude.{◌≡◌, ◌⊎◌, inl, inr, refl, true, false, arith}
use edgehog_zephyr_device.FileTransfer.Message.Types.{Message}
use edgehog_zephyr_device.FileTransfer.Service.State.{
  Phase, absent, at_loop, getting, at_wait, taking, transferring, World, is_transferring,
}
use edgehog_zephyr_device.FileTransfer.Service.Thread.{
  get_message, phase_step, thread_step, start_service, timed_out, stop_request, stop_join,
}
use edgehog_zephyr_device.FileTransfer.Service.Steps.{
  put, ota_take, ota_give, with_service, Step, thread, request, take, give, start, stop, join,
  abort, no_join, Reach, here, next,
}

-- The semaphore is taken by an update or by a transfer, never by both.
pub record IsExclusive (w : World) : Type 0 where
  pub by_update : (w.sem_free ≡ false) ⊎ (w.ota_holds ≡ false)
  pub by_transfer : (w.sem_free ≡ false) ⊎ (is_transferring w.service.phase ≡ false)
  pub by_one : (w.ota_holds ≡ false) ⊎ (is_transferring w.service.phase ≡ false)

phase_step-IsExclusive :
    (p : Phase) (w : World) → w.service.phase ≡ p → IsExclusive w → IsExclusive (phase_step p w)
unfolding phase_step is_transferring get_message
phase_step-IsExclusive absent w e x = x
phase_step-IsExclusive at_loop w e x = ground arith
phase_step-IsExclusive getting w e x = ground arith
phase_step-IsExclusive (at_wait m) w e x = ground arith
phase_step-IsExclusive (taking m) w e x = ground arith
phase_step-IsExclusive (transferring m) w e x = ground arith

Step-IsExclusive : {w v : World} → Step w v → IsExclusive w → IsExclusive v
unfolding thread_step put ota_take ota_give start_service stop_request stop_join is_transferring
Step-IsExclusive (thread w) x = phase_step-IsExclusive w.service.phase w refl x
Step-IsExclusive (request w m r) x = ground arith
Step-IsExclusive (take w h) x = ground arith
Step-IsExclusive (give w h) x = ground arith
Step-IsExclusive (start w calls) x = ground arith
Step-IsExclusive (stop w r) x = ground arith
Step-IsExclusive (join w r) x = ground arith
Step-IsExclusive (abort w) x = ground arith
Step-IsExclusive (no_join w) x = ground arith

Reach-IsExclusive : {w v : World} → IsExclusive w → Reach w v → IsExclusive v
Reach-IsExclusive x here = x
Reach-IsExclusive x (next r st) = Step-IsExclusive st (Reach-IsExclusive x r)

-- From a state without a thread and without an update, in every order of requests, starts, stops and
-- steps of the threads: an update and a transfer never run at the same time, and the semaphore is
-- taken while one of them runs.
pub start-IsExclusive :
    {w v : World} → w.service.phase ≡ absent → w.ota_holds ≡ false → Reach w v → IsExclusive v
unfolding is_transferring
start-IsExclusive {w} p q r =
    let none_yet : is_transferring w.service.phase ≡ false = rw p refl in
    Reach-IsExclusive (record { by_update = inr q; by_transfer = inr none_yet; by_one = inl q }) r

-- The semaphore is taken and nobody holds it.
pub record IsLost (w : World) : Type 0 where
  pub taken : w.sem_free ≡ false
  pub no_update : w.ota_holds ≡ false
  pub no_transfer : is_transferring w.service.phase ≡ false

phase_step-IsLost :
    (p : Phase) (w : World) → w.service.phase ≡ p → IsLost w → IsLost (phase_step p w)
unfolding phase_step is_transferring get_message
phase_step-IsLost absent w e x = x
phase_step-IsLost at_loop w e x = ground arith
phase_step-IsLost getting w e x = ground arith
phase_step-IsLost (at_wait m) w e x = ground arith
phase_step-IsLost (taking m) w e x = ground arith
phase_step-IsLost (transferring m) w e x = ground arith

Step-IsLost : {w v : World} → Step w v → IsLost w → IsLost v
unfolding thread_step put ota_take ota_give start_service stop_request stop_join is_transferring
Step-IsLost (thread w) x = phase_step-IsLost w.service.phase w refl x
Step-IsLost (request w m r) x = ground arith
Step-IsLost (take w h) x = ground arith
Step-IsLost (give w h) x = ground arith
Step-IsLost (start w calls) x = ground arith
Step-IsLost (stop w r) x = ground arith
Step-IsLost (join w r) x = ground arith
Step-IsLost (abort w) x = ground arith
Step-IsLost (no_join w) x = ground arith

Reach-IsLost : {w v : World} → IsLost w → Reach w v → IsLost v
Reach-IsLost x here = x
Reach-IsLost x (next r st) = Step-IsLost st (Reach-IsLost x r)

-- Where the time of a stop is over during a transfer, and the state is one that a start leads to,
-- the semaphore is lost: whatever happens later, it stays taken, and no update and no transfer runs.
pub stop_join-IsLost :
    (w : World) (m : Message) {v : World}
    → IsExclusive w
    → w.service.phase ≡ transferring m
    → Reach (with_service (stop_join timed_out w.service).1 w) v
    → IsLost v
unfolding stop_join is_transferring
stop_join-IsLost w m x e r =
    let busy : is_transferring w.service.phase ≡ true = rw e refl in
    Reach-IsLost (record { taken = ground arith; no_update = ground arith; no_transfer = refl }) r
