-- ===== src/FileTransfer/Download/Handle.antt =====
-- `edgehog_ft_handle_server_to_device` and `verify_digest` of
-- lib/edgehog_device/file_transfer/download.c.
use edgehog_zephyr_device.Prelude.{
  ℕ, ltb, ◌==◌, Bool, true, false, not, ◌&&◌, List, [], length, take, drop, Option, none, some, ℤ,
  pos, if◌then◌else◌, bytes_eq, codes,
}
use edgehog_zephyr_device.Result.{EdgehogResult, ok, is_ok}
use edgehog_zephyr_device.Ztar.Core.{size_mod}
use edgehog_zephyr_device.Http.Response.{HttpResponse}
use edgehog_zephyr_device.Http.Request.{Held, RequestCalls, http_get}
use edgehog_zephyr_device.FileTransfer.Message.Types.{
  server_to_device, Encoding, tar, LocationType, filesystem, streaming, unsupported_location,
  Message,
}
use edgehog_zephyr_device.FileTransfer.Message.Init.{is_given}
use edgehog_zephyr_device.FileTransfer.Service.Requests.{
  Errno, no_error, einval, enosr, eio, Response, send_response,
}
use edgehog_zephyr_device.FileTransfer.Download.Data.{
  FileWriteCbks, HashStatus, verified, mismatch, hash_error, Crypto, Lz4, Data,
}
use edgehog_zephyr_device.FileTransfer.Download.Chunks.{request_cbk}

-- A storage: `file_init` with the size, the place and whether an archive comes, and the operations on
-- the context that it gives.
pub record Backend (F : Type 0) : Type 0 where
  pub file_init : ℤ → Option (List ℕ) → Bool → EdgehogResult × F
  pub cbks : FileWriteCbks F

-- What the handler is given: the storages, the cryptography, the decompression, the outcomes of its
-- allocation and of the HTTP request, and the response.
pub record Surroundings (F D : Type 0) : Type 0 where
  pub stream : Backend F
  pub file_system : Backend F
  pub crypto : Crypto
  pub decompression : Lz4 D
  pub data_new : Bool
  pub tls : Bool
  pub calls : RequestCalls
  pub responses : List HttpResponse
  pub client_failed : Bool
  pub held : Held

-- How the context of the storage ends: never there, completed, aborted, or left as it is.
pub data End (F : Type 0) : Type 0 where
  not_opened : End F
  completed : F → End F
  aborted : F → End F
  left_open : F → End F

-- The file's size as a `size_t`.
unfoldable pub is_bad_size : ℤ → Bool
is_bad_size (pos n) = not (ltb n size_mod)
is_bad_size _ = true

unfoldable pub is_tar : Encoding → Bool
is_tar tar = true
is_tar _ = false

unfoldable pub status_errno : HashStatus → Errno
status_errno verified = no_error
status_errno mismatch = einval
status_errno hash_error = eio

unfoldable pub verify_bytes : Crypto → List ℕ → Option (List ℕ) → Errno
verify_bytes crypto hashed none = einval
verify_bytes crypto hashed (some expected) =
    if length expected == 32 then status_errno (crypto.hash_verify hashed expected) else einval

-- `verify_digest`; `no_error` is its 0.
unfoldable pub verify_digest : Crypto → List ℕ → List ℕ → Errno
verify_digest crypto hashed expected_digest =
    let hex = drop 7 expected_digest in
    if not (bytes_eq (take 7 expected_digest) (codes "sha256:"))
    then einval
    else if not (length hex == 64)
    then einval
    else verify_bytes crypto hashed (crypto.hex2bin hex)

unfoldable pub is_no_error : Errno → Bool
is_no_error no_error = true
is_no_error _ = false

module _ {F : Type 0} where
  -- The label `exit`: the report of the transfer.
  unfoldable pub exit : Message → Errno → EdgehogResult → End F → End F × Response
  exit msg code eres end = (end, send_response msg.id server_to_device code eres)

  -- From the digest on, with the data that the request left.
  unfoldable pub complete_file : FileWriteCbks F → Message → F → End F × Response
  complete_file cbks msg file =
      let (eres, file') = cbks.file_complete file in
      if is_ok eres
      then exit msg no_error ok (completed file')
      else exit msg eio eres (aborted (cbks.file_abort file'))

module _ {F D : Type 0} where
  -- `get_callbacks`
  unfoldable pub get_callbacks : Surroundings F D → LocationType → Option (Backend F)
  get_callbacks w streaming = some w.stream
  get_callbacks w filesystem = some w.file_system
  get_callbacks w unsupported_location = none

  -- `edgehog_ft_http_cbk_data_new` with the digest.
  unfoldable pub data_of : Message → F → Data F D
  data_of msg file = record {
    file = file;
    expected_digest = msg.digest;
    hashed = [];
    encoding = msg.encoding;
    decomp = none;
    unpack = none;
    progress = record {
      progress = msg.progress;
      transferred_bytes = 0;
      total_bytes = size_of msg.file_size_bytes;
      last_reported_bytes = 0;
      reports = [];
    };
    posix_errno = no_error;
  }
    where
      size_of : ℤ → ℕ
      size_of (pos n) = n
      size_of _ = 0

  unfoldable pub check_digest :
      Crypto → FileWriteCbks F → Message → Option (List ℕ) → Data F D → End F × Response
  check_digest crypto cbks msg none d = complete_file cbks msg d.file
  check_digest crypto cbks msg (some digest) d =
      let code = verify_digest crypto d.hashed digest in
      if is_no_error code
      then complete_file cbks msg d.file
      else exit msg code ok (aborted (cbks.file_abort d.file))

  -- The HTTP request and what follows it.
  unfoldable pub download : Surroundings F D → FileWriteCbks F → Message → F → End F × Response
  download w cbks msg file =
      let (eres, ctx, held) =
        http_get (request_cbk cbks w.decompression w.crypto) w.tls w.calls w.responses
          w.client_failed (data_of msg file) w.held in
      if is_ok eres
      then check_digest w.crypto cbks msg msg.digest ctx.user
      else exit msg ctx.user.posix_errno eres (aborted (cbks.file_abort ctx.user.file))

  -- With the storage open.
  unfoldable pub with_file : Surroundings F D → FileWriteCbks F → Message → F → End F × Response
  with_file w cbks msg file =
      if not w.data_new
      then exit msg enosr ok (left_open file)
      else if is_given msg.digest && not w.crypto.setup_works
      then exit msg eio ok (aborted (cbks.file_abort file))
      else download w cbks msg file

  unfoldable pub with_backend : Surroundings F D → Message → Option (Backend F) → End F × Response
  with_backend w msg none = exit msg einval ok not_opened
  with_backend w msg (some backend) =
      let (eres, file) = backend.file_init msg.file_size_bytes msg.location (is_tar msg.encoding) in
      if is_ok eres then with_file w backend.cbks msg file else exit msg eio eres not_opened

  -- `edgehog_ft_handle_server_to_device`
  unfoldable pub handle_server_to_device : Surroundings F D → Message → End F × Response
  handle_server_to_device w msg =
      if is_bad_size msg.file_size_bytes
      then exit msg einval ok not_opened
      else with_backend w msg (get_callbacks w msg.location_type)
