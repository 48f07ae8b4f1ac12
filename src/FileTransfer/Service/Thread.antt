-- ===== src/FileTransfer/Service/Thread.antt =====
-- `thread_entry_point`, `edgehog_ft_start` and `edgehog_ft_stop` of
-- lib/edgehog_device/file_transfer/core.c.
use edgehog_zephyr_device.Prelude.{
  Bool, true, false, not, List, [], ◌∷◌, ◌++◌, Option, none, some, if◌then◌else◌,
}
use edgehog_zephyr_device.Result.{
  EdgehogResult, ok, internal_error, invalid_param, file_transfer_start_fail,
  file_transfer_stop_timeout,
}
use edgehog_zephyr_device.FileTransfer.Message.Types.{Message}
use edgehog_zephyr_device.FileTransfer.Service.State.{
  Phase, absent, at_loop, getting, at_wait, taking, transferring, Service, World,
}

-- `k_msgq_get` with a timeout: the oldest message, or the test of the loop again.
unfoldable pub get_message : List Message → Service → Service
get_message [] s = record s { phase = at_loop }
get_message (m ∷ queue) s = record s { phase = at_wait m; queue = queue }

-- One step of the thread. A wait for the semaphore that runs out leads back to the inner test; a
-- transfer is one step, which ends by giving the semaphore.
unfoldable pub phase_step : Phase → World → World
phase_step absent w = w
phase_step at_loop w =
    let s = w.service in
    record w { service = record s { phase = if s.running then getting else absent } }
phase_step getting w = record w { service = get_message w.service.queue w.service }
phase_step (at_wait m) w =
    let s = w.service in
    record w { service = record s { phase = if s.running then taking m else absent } }
phase_step (taking m) w =
    let s = w.service in
    if w.sem_free
    then record w { service = record s { phase = transferring m }; sem_free = false }
    else record w { service = record s { phase = at_wait m } }
phase_step (transferring m) w =
    let s = w.service in
    record w {
      service = record s { phase = at_loop; handled = s.handled ++ m ∷ [] };
      sem_free = true;
    }

unfoldable pub thread_step : World → World
thread_step w = phase_step w.service.phase w

-- The outcomes of the calls of a start.
pub record StartCalls : Type 0 where
  pub msgq_alloc : Bool
  pub thread_create : Bool
  pub name_set : Bool

-- `edgehog_ft_start` of a service; a failure clears the bit that it set.
unfoldable pub start_service : StartCalls → Service → EdgehogResult × Service
start_service calls s =
    let failed : EdgehogResult × Service =
      (file_transfer_start_fail, record s { running = false }) in
    if s.running
    then (file_transfer_start_fail, s)
    else if not calls.msgq_alloc
    then failed
    else if not calls.thread_create
    then (file_transfer_start_fail, record s { running = false; queue = [] })
    else if not calls.name_set
    then (file_transfer_start_fail, record s { running = false; phase = absent; queue = [] })
    else (ok, record s { running = true; phase = at_loop; queue = [] })

unfoldable pub ft_start : StartCalls → Option Service → EdgehogResult × Option Service
ft_start calls none = (file_transfer_start_fail, none)
ft_start calls (some s) = let (r, s') = start_service calls s in (r, some s')

-- The result of `k_thread_join`: 0, -EAGAIN or another number.
pub data Join : Type 0 where
  joined timed_out failed : Join

-- The request of `edgehog_ft_stop` to the thread.
unfoldable pub stop_request : Service → Service
stop_request s = record s { running = false }

-- `edgehog_ft_stop` from the join on: a thread that has not ended in time is aborted, and the queue
-- is emptied.
unfoldable pub stop_join : Join → Service → EdgehogResult × Service
stop_join joined s = (ok, record s { queue = [] })
stop_join timed_out s = (file_transfer_stop_timeout, record s { phase = absent; queue = [] })
stop_join failed s = (internal_error, record s { queue = [] })

-- `edgehog_ft_is_running`
unfoldable pub ft_is_running : Option Service → Bool
ft_is_running none = false
ft_is_running (some s) = s.running

-- `edgehog_ft_stop` up to the request: the result where it returns at once.
unfoldable pub stop_begin : Option Service → Option EdgehogResult × Option Service
stop_begin none = (some invalid_param, none)
stop_begin (some s) = if not s.running then (some ok, some s) else (none, some (stop_request s))
