-- ===== src/FileTransfer/Upload/Handle.antt =====
-- `edgehog_ft_handle_device_to_server` of lib/edgehog_device/file_transfer/upload.c.
use edgehog_zephyr_device.Prelude.{ℕ, Bool, false, not, List, [], Option, none, some, if◌then◌else◌}
use edgehog_zephyr_device.Result.{EdgehogResult, ok, is_ok}
use edgehog_zephyr_device.Http.Response.{Context}
use edgehog_zephyr_device.Http.Payload.{PayloadChunk}
use edgehog_zephyr_device.Http.Request.{Held, RequestCalls, http_put}
use edgehog_zephyr_device.FileTransfer.Message.Types.{
  device_to_server, LocationType, filesystem, streaming, unsupported_location, Message,
}
use edgehog_zephyr_device.FileTransfer.Service.Requests.{
  Errno, no_error, einval, enosr, eio, eproto, Response, send_response,
}
use edgehog_zephyr_device.FileTransfer.Download.Handle.{
  End, not_opened, completed, aborted, left_open, is_tar,
}
use edgehog_zephyr_device.FileTransfer.Upload.Chunks.{FileReadCbks, UploadData, payload_cbk}

-- A storage to read from: `file_init` gives the context and the size of the upload.
pub record ReadBackend (F : Type 0) : Type 0 where
  pub file_init : Option (List ℕ) → Bool → EdgehogResult × F × ℕ
  pub cbks : FileReadCbks F

-- `http_client_req` of a PUT: it calls the payload callback as often as it wants, and is true where it does
-- not return a negative number.
abbrev pub PutClient : Type 0 → Type 0
PutClient F =
    (UploadData F → EdgehogResult × PayloadChunk × UploadData F)
    → Context (UploadData F)
    → Bool × Context (UploadData F)

-- What the handler is given: the storages, the outcomes of its allocation and of the calls of the
-- request, and the client.
pub record UploadSurroundings (F : Type 0) : Type 0 where
  pub stream : ReadBackend F
  pub file_system : ReadBackend F
  pub data_new : Bool
  pub tls : Bool
  pub calls : RequestCalls
  pub client : PutClient F
  pub held : Held

unfoldable pub headers_list : Option (List (List ℕ)) → List (List ℕ)
headers_list none = []
headers_list (some headers) = headers

-- The error number of a request that failed: one of its own where the upload left none.
unfoldable pub put_errno : Errno → Errno
put_errno no_error = eproto
put_errno code = code

module _ {F : Type 0} where
  unfoldable pub get_read_callbacks : UploadSurroundings F → LocationType → Option (ReadBackend F)
  get_read_callbacks w streaming = some w.stream
  get_read_callbacks w filesystem = some w.file_system
  get_read_callbacks w unsupported_location = none

  unfoldable pub upload_data_of : Message → F → ℕ → UploadData F
  upload_data_of msg file upload_size = record {
    file = file;
    encoding = msg.encoding;
    pack = none;
    tar_exhausted = false;
    progress = record {
      progress = msg.progress;
      transferred_bytes = 0;
      total_bytes = upload_size;
      last_reported_bytes = 0;
      reports = [];
    };
    posix_errno = no_error;
  }

  -- The label `exit`: the report of the transfer.
  unfoldable pub upload_exit : Message → Errno → EdgehogResult → End F → End F × Response
  upload_exit msg code eres end = (end, send_response msg.id device_to_server code eres)

  -- The end of a request that succeeded. A storage that fails here is not aborted.
  unfoldable pub finish_upload : FileReadCbks F → Message → F → End F × Response
  finish_upload cbks msg file =
      let (eres, file') = cbks.file_complete file in
      if is_ok eres
      then upload_exit msg no_error ok (completed file')
      else upload_exit msg eio eres (left_open file')

  -- The HTTP request and what follows it.
  unfoldable pub upload : UploadSurroundings F → FileReadCbks F → Message → F → ℕ → End F × Response
  upload w cbks msg file upload_size =
      let (eres, ctx, held) =
        http_put (w.client (payload_cbk cbks)) w.tls w.calls (headers_list msg.http_headers)
          (upload_data_of msg file upload_size) w.held in
      if is_ok eres
      then finish_upload cbks msg ctx.user.file
      else upload_exit msg (put_errno ctx.user.posix_errno) eres
          (aborted (cbks.file_abort ctx.user.file))

  unfoldable pub upload_backend :
      UploadSurroundings F → Message → Option (ReadBackend F) → End F × Response
  upload_backend w msg none = upload_exit msg einval ok not_opened
  upload_backend w msg (some backend) =
      let (eres, file, upload_size) = backend.file_init msg.location (is_tar msg.encoding) in
      if not (is_ok eres)
      then upload_exit msg eio eres not_opened
      else if not w.data_new
      then upload_exit msg enosr ok (left_open file)
      else upload w backend.cbks msg file upload_size

  -- `edgehog_ft_handle_device_to_server`
  unfoldable pub handle_device_to_server : UploadSurroundings F → Message → End F × Response
  handle_device_to_server w msg = upload_backend w msg (get_read_callbacks w msg.location_type)
