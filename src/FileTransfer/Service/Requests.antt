-- ===== src/FileTransfer/Service/Requests.antt =====
-- `edgehog_ft_process_event` of lib/edgehog_device/file_transfer/core.c, and the reports of
-- `edgehog_ft_send_response` of lib/edgehog_device/file_transfer/utils.c.
use edgehog_zephyr_device.Prelude.{
  ℕ, ltb, not, List, [], ◌∷◌, ◌++◌, length, Option, none, some, if◌then◌else◌,
}
use edgehog_zephyr_device.Result.{
  EdgehogResult, ok, is_ok, out_of_memory, network_error, http_request_error, parse_url_error,
  http_request_invalid_headers, device_not_ready, file_transfer_invalid_request,
  file_transfer_queue_error,
}
use edgehog_zephyr_device.FileTransfer.Message.Types.{
  TransferType, Entry, Message, zero_message, is_nil, Environment,
}
use edgehog_zephyr_device.FileTransfer.Message.Init.{msg_init}
use edgehog_zephyr_device.FileTransfer.Service.State.{Service}
use edgehog_zephyr_device.FileTransfer.Service.Thread.{ft_is_running}

-- The error numbers that the reports use, and any other.
pub data Errno : Type 0 where
  no_error einval econnrefused eproto enosr epipe eagain eio enomem : Errno
  other_errno : ℕ → Errno

-- A report to the server: the transfer, its direction, and the code, which is `no_error` for a
-- success. The text is left out.
pub record Response : Type 0 where
  pub id : List ℕ
  pub type : TransferType
  pub code : Errno

-- The code for a result, where no error number is given.
unfoldable pub result_code : EdgehogResult → Errno
result_code ok = no_error
result_code http_request_invalid_headers = einval
result_code parse_url_error = einval
result_code network_error = econnrefused
result_code http_request_error = eproto
result_code out_of_memory = enosr
result_code _ = epipe

unfoldable pub response_code : Errno → EdgehogResult → Errno
response_code no_error eres = result_code eres
response_code code eres = code

unfoldable pub send_response : List ℕ → TransferType → Errno → EdgehogResult → Response
send_response id type in_errno eres = record {
  id = id;
  type = type;
  code = response_code in_errno eres;
}

-- The end of a request: its result, the service, and the reports sent.
pub record Processed : Type 0 where
  pub result : EdgehogResult
  pub service : Option Service
  pub responses : List Response

-- The label `failure`: a report is sent where the request names its transfer.
unfoldable pub fail_event :
    EdgehogResult → Errno → TransferType → Message → Option Service → Processed
fail_event eres code type msg service = record {
  result = eres;
  service = service;
  responses = if is_nil msg.id then [] else send_response msg.id type code eres ∷ [];
}

-- `k_msgq_put`, which fails on a full queue.
unfoldable pub put_message : ℕ → TransferType → Message → Option Service → Processed
put_message queue_size type msg none = fail_event file_transfer_queue_error epipe type msg none
put_message queue_size type msg (some s) =
    if ltb (length s.queue) queue_size
    then record {
      result = ok;
      service = some (record s { queue = s.queue ++ msg ∷ [] });
      responses = [];
    }
    else fail_event file_transfer_queue_error epipe type msg (some s)

-- A request that was read.
unfoldable pub process_message :
    ℕ → TransferType → EdgehogResult × Message → Option Service → Processed
process_message queue_size type (eres, msg) service =
    if not (is_ok eres)
    then fail_event eres epipe type msg service
    else if not (ft_is_running service)
    then fail_event device_not_ready eagain type msg service
    else put_message queue_size type msg service

-- `edgehog_ft_process_event` of an object, which may be a null pointer.
unfoldable pub process_event :
    Environment → ℕ → TransferType → Option (List Entry) → Option Service → Processed
process_event env queue_size type none service =
    fail_event file_transfer_invalid_request epipe type zero_message service
process_event env queue_size type (some entries) service =
    process_message queue_size type (msg_init env entries type zero_message) service
