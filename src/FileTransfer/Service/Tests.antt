-- ===== src/FileTransfer/Service/Tests.antt =====
-- The service of file transfers at concrete inputs: a request with an identifier, a URL, a place and
-- a digest, and the threads in a few orders (lib/edgehog_device/file_transfer/core.c).
use edgehog_zephyr_device.Prelude.{
  ℕ, ◌≡◌, ◌⊎◌, refl, Bool, true, false, List, [], ◌∷◌, ◌++◌, replicate, some, codes, arith,
}
use edgehog_zephyr_device.Result.{ok}
use edgehog_zephyr_device.FileTransfer.Message.Types.{
  server_to_device, string, Entry, zero_message, is_nil, Environment,
}
use edgehog_zephyr_device.FileTransfer.Message.Parse.{
  parse_encoding_string, parse_location_type_string, is_server_to_device, duplicate_string,
  parse_string, parse_value, parse_headers, parse_entries,
}
use edgehog_zephyr_device.FileTransfer.Message.Init.{
  is_given, is_unsupported, is_known_encoding, is_refused, headers_of, finish_message,
  check_message, msg_init,
}
use edgehog_zephyr_device.FileTransfer.Message.Accepted.{IsRequest, msg_init-IsRequest}
use edgehog_zephyr_device.FileTransfer.Service.State.{
  Phase, absent, at_loop, transferring, Service, World, line, is_transferring,
}
use edgehog_zephyr_device.FileTransfer.Service.Thread.{thread_step, timed_out, stop_join}
use edgehog_zephyr_device.FileTransfer.Service.Requests.{process_event}
use edgehog_zephyr_device.FileTransfer.Service.Reported.{
  IsQueued, IsRefused, parsed_id, process_event-IsRefused,
}
use edgehog_zephyr_device.FileTransfer.Service.Steps.{Reach, here, next, put, with_service}
use edgehog_zephyr_device.FileTransfer.Service.Steps
use edgehog_zephyr_device.FileTransfer.Service.Semaphore.{
  IsExclusive, start-IsExclusive, IsLost, stop_join-IsLost,
}
use edgehog_zephyr_device.FileTransfer.Service.Order.{Serves, done, Serves-line}
use edgehog_zephyr_device.FileTransfer.Service.Order

-- Allocations work, and every identifier is read as sixteen ones.
abbrev board : Environment
board = record {
  compression = true;
  tar_support = true;
  copy_works = λ i. true;
  headers_work = true;
  header_works = λ i. true;
  uuid_from_string = λ s old. replicate 16 1;
}

abbrev entry : List ℕ → List ℕ → Entry
entry path s = record { path = path; value = string s }

abbrev request : List Entry
request =
    entry (codes "id") (codes "01010101-0101-0101-0101-010101010101")
    ∷ entry (codes "url") (codes "https://host/a")
    ∷ entry (codes "destinationType") (codes "filesystem")
    ∷ entry (codes "destination") (codes "/lfs/a")
    ∷ entry (codes "encoding") (codes "lz4")
    ∷ entry (codes "digest") (codes "sha256:00")
    ∷ []

request_accepted : (msg_init board request server_to_device zero_message).0 ≡ ok
unfolding msg_init parse_entries parse_value parse_string parse_headers duplicate_string
    parse_encoding_string parse_location_type_string is_server_to_device check_message is_nil
    is_given is_unsupported finish_message headers_of is_known_encoding is_refused
request_accepted = refl

msg_init-IsRequest_example :
    IsRequest board server_to_device request
      (msg_init board request server_to_device zero_message).1
msg_init-IsRequest_example =
    msg_init-IsRequest board request server_to_device zero_message request_accepted

abbrev idle : Service
idle = record { running = true; phase = at_loop; queue = []; handled = [] }

process_event-IsRefused_example :
    let p = process_event board 4 server_to_device (some request) (some idle) in
    ((p.result ≡ ok) × IsQueued board 4 server_to_device request (some idle) p)
    ⊎ IsRefused (parsed_id board request server_to_device) server_to_device (some idle) p
process_event-IsRefused_example =
    process_event-IsRefused board 4 server_to_device request (some idle)

abbrev world : Phase → Bool → World
world phase sem_free = record {
  service = record { running = true; phase = phase; queue = []; handled = [] };
  sem_free = sem_free;
  ota_holds = false;
}

start-IsExclusive_example : IsExclusive (thread_step (world absent true))
start-IsExclusive_example =
    start-IsExclusive {w = world absent true} refl refl
      (next here (Steps.thread (world absent true)))

busy-IsExclusive : IsExclusive (world (transferring zero_message) false)
unfolding is_transferring
busy-IsExclusive = record {
  by_update = ground arith;
  by_transfer = ground arith;
  by_one = ground arith;
}

abbrev stopped : World
stopped =
    let w = world (transferring zero_message) false in
    with_service (stop_join timed_out w.service).1 w

stop_join-IsLost_example : IsLost (thread_step stopped)
stop_join-IsLost_example =
    stop_join-IsLost (world (transferring zero_message) false) zero_message busy-IsExclusive refl
      (next here (Steps.thread stopped))

Serves-line_example :
    (line (thread_step (put zero_message (world at_loop true))).service
      ≡ line (world at_loop true).service ++ zero_message ∷ [])
    × ((thread_step (put zero_message (world at_loop true))).service.running ≡ true)
Serves-line_example =
    Serves-line {w = world at_loop true} refl (Order.thread (Order.request zero_message done))
