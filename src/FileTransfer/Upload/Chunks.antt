-- ===== src/FileTransfer/Upload/Chunks.antt =====
-- The chunks of an upload, lib/edgehog_device/file_transfer/upload.c: plain files and archives. An
-- upload with compression is refused before it gets here, and is left out.
use edgehog_zephyr_device.Prelude.{
  ℕ, ◌+◌, ◌*◌, ◌-◌, Bool, true, false, List, [], length, Option, none, some, ℤ, pos, negsuc,
  if◌then◌else◌,
}
use edgehog_zephyr_device.Result.{EdgehogResult, ok, is_ok, http_request_aborted}
use edgehog_zephyr_device.Ztar.Core
use edgehog_zephyr_device.Ztar.Core.{ZtarResult, size_mod, trailer_size}
use edgehog_zephyr_device.Ztar.Pack.State
use edgehog_zephyr_device.Ztar.Pack.State.{NextFile, PackCallbacks, Pack}
use edgehog_zephyr_device.Ztar.Pack.Stream.{read_stream}
use edgehog_zephyr_device.Http.Payload.{PayloadChunk}
use edgehog_zephyr_device.FileTransfer.Message.Types.{Encoding, tar}
use edgehog_zephyr_device.FileTransfer.Progress.{Progress, update_progress}
use edgehog_zephyr_device.FileTransfer.Service.Requests.{Errno, eio}
use edgehog_zephyr_device.FileTransfer.Download.Archive.{is_exhausted}

-- What `file_get_next_entry` gives: the result, the name, the size, and whether there is an entry.
pub record NextEntry (F : Type 0) : Type 0 where
  pub result : EdgehogResult
  pub name : List ℕ
  pub size : ℕ
  pub has_next : Bool
  pub file : F

-- What `file_read_chunk` gives.
pub record ReadChunk (F : Type 0) : Type 0 where
  pub result : EdgehogResult
  pub bytes : List ℕ
  pub last_chunk : Bool
  pub file : F

-- `edgehog_ft_file_read_cbks_t` on a context that `file_init` gave.
pub record FileReadCbks (F : Type 0) : Type 0 where
  pub file_get_next_entry : List ℕ → ℕ → F → NextEntry F
  pub file_read_chunk : ℕ → F → ReadChunk F
  pub file_complete : F → EdgehogResult × F
  pub file_abort : F → F

-- `edgehog_ft_http_cbk_data_t` as an upload uses it.
pub record UploadData (F : Type 0) : Type 0 where
  pub file : F
  pub encoding : Encoding
  pub pack : Option (Pack (F × Errno))
  pub tar_exhausted : Bool
  pub progress : Progress
  pub posix_errno : Errno

-- The size of `tar_buffer`.
abbrev pub tar_buffer_size : ℕ
tar_buffer_size = trailer_size

module _ {F : Type 0} (file_cbks : FileReadCbks F) where
  unfoldable pub tar_get_next_file : List ℕ → ℕ → F × Errno → NextFile (F × Errno)
  tar_get_next_file name size (file, e) =
      let entry = file_cbks.file_get_next_entry name size file in
      record {
        result = if is_ok entry.result then pos 0 else negsuc 0;
        has_next = entry.has_next;
        name = entry.name;
        size = entry.size;
        user_data = (entry.file, if is_ok entry.result then e else eio);
      }

  unfoldable pub tar_read_file_data : ℕ → F × Errno → ℤ × List ℕ × (F × Errno)
  tar_read_file_data max_size (file, e) =
      let chunk = file_cbks.file_read_chunk max_size file in
      if is_ok chunk.result
      then (pos 0, chunk.bytes, (chunk.file, e))
      else (negsuc 0, [], (chunk.file, eio))

  -- `ztar_pack_init` of a writer that is all zeros.
  unfoldable pub fresh_pack : F × Errno → Pack (F × Errno)
  fresh_pack u = record {
    initialized = true;
    state = State.next_file;
    current_file_name = [];
    expected_file_size = 0;
    bytes_written_for_file = 0;
    bytes_processed_in_padding = 0;
    bytes_processed_in_trailer = 0;
    callbacks = record { get_next_file = tar_get_next_file; read_file_data = tar_read_file_data };
    user_data = u;
  }

  unfoldable pub writer_of : Option (Pack (F × Errno)) → F × Errno → Pack (F × Errno)
  writer_of none u = fresh_pack u
  writer_of (some s) u = record s { user_data = u }

  -- A call of the writer; five rounds for each byte of the buffer and five more are enough.
  unfoldable pub write_archive : Pack (F × Errno) → ZtarResult × Pack (F × Errno) × List ℕ
  write_archive s = written (read_stream (5 * tar_buffer_size + 5) s tar_buffer_size)
    where
      written :
          Option (ZtarResult × Pack (F × Errno) × List ℕ) → ZtarResult × Pack (F × Errno) × List ℕ
      written none = (Core.internal_error, s, [])
      written (some r) = r

  -- `process_tar_upload_chunk` from the set-up of the writer on.
  unfoldable pub pack_chunk :
      Pack (F × Errno) → UploadData F → EdgehogResult × PayloadChunk × UploadData F
  pack_chunk s d =
      let (zres, s', bytes) = write_archive s in
      let exhausted = is_exhausted zres in
      let packed : UploadData F = record d {
        file = s'.user_data.0;
        posix_errno = s'.user_data.1;
        pack = some s';
        tar_exhausted = exhausted;
      } in
      if exhausted
      then (
        ok,
        record { bytes = bytes; last_chunk = true },
        record packed { progress = update_progress d.progress (length bytes) true },
      )
      else if Core.is_ok zres
      then (
        ok,
        record { bytes = bytes; last_chunk = false },
        record packed { progress = update_progress d.progress (length bytes) false },
      )
      else (
        http_request_aborted,
        record { bytes = []; last_chunk = false },
        record packed { posix_errno = eio },
      )

  unfoldable pub process_tar_upload_chunk :
      UploadData F → EdgehogResult × PayloadChunk × UploadData F
  process_tar_upload_chunk d =
      let s = writer_of d.pack (d.file, d.posix_errno) in
      if d.tar_exhausted
      then (
        ok,
        record { bytes = []; last_chunk = true },
        record d { pack = some s; progress = update_progress d.progress 0 true },
      )
      else pack_chunk s d

  -- `process_uncompressed_upload_chunk`; SIZE_MAX is the size that the storage is asked for.
  unfoldable pub process_uncompressed_upload_chunk :
      UploadData F → EdgehogResult × PayloadChunk × UploadData F
  process_uncompressed_upload_chunk d =
      let chunk = file_cbks.file_read_chunk (size_mod - 1) d.file in
      let read : UploadData F = record d { file = chunk.file } in
      if is_ok chunk.result
      then (
        ok,
        record { bytes = chunk.bytes; last_chunk = chunk.last_chunk },
        record read { progress = update_progress d.progress (length chunk.bytes) chunk.last_chunk },
      )
      else (
        http_request_aborted,
        record { bytes = []; last_chunk = false },
        record read { posix_errno = eio },
      )

  unfoldable pub upload_chunk :
      Encoding → UploadData F → EdgehogResult × PayloadChunk × UploadData F
  upload_chunk tar d = process_tar_upload_chunk d
  upload_chunk _ d = process_uncompressed_upload_chunk d

  -- `http_put_device_to_server_payload_cbk`
  unfoldable pub payload_cbk : UploadData F → EdgehogResult × PayloadChunk × UploadData F
  payload_cbk d = upload_chunk d.encoding d
