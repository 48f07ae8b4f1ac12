-- ===== src/FileTransfer/Download/Archive.antt =====
-- The archive reader in a download, lib/edgehog_device/file_transfer/download.c: its callbacks on the
-- storage, and the call of the reader for a chunk.
use edgehog_zephyr_device.Prelude.{
  ℕ, ◌==◌, Bool, true, false, List, length, replicate, Option, none, some, ℤ, pos, negsuc,
  if◌then◌else◌,
}
use edgehog_zephyr_device.Result.{is_ok}
use edgehog_zephyr_device.Ztar.Core.{
  ZtarResult, ok, internal_error, archive_exhausted, FileType, regular_file, block_size,
}
use edgehog_zephyr_device.Ztar.Header.{Header}
use edgehog_zephyr_device.Ztar.Unpack.State.{header, Unpack, get_file_name, get_file_type}
use edgehog_zephyr_device.Ztar.Unpack.Process.{process}
use edgehog_zephyr_device.Http.Response.{Chunk}
use edgehog_zephyr_device.FileTransfer.Service.Requests.{Errno, eio}
use edgehog_zephyr_device.FileTransfer.Download.Data.{FileWriteCbks}

unfoldable pub is_exhausted : ZtarResult → Bool
is_exhausted archive_exhausted = true
is_exhausted _ = false

-- A call of the reader always returns; the case of its fuel is not reached.
unfoldable pub read_archive :
    {F : Type 0} → Chunk → Unpack (F × Errno) → ZtarResult × Unpack (F × Errno)
read_archive {F} chunk s =
    if length chunk.bytes == 0 then (ok, s) else result (process s (some chunk.bytes))
  where
    result : Option (ZtarResult × Unpack (F × Errno)) → ZtarResult × Unpack (F × Errno)
    result none = (internal_error, s)
    result (some r) = r

module _ {F : Type 0} (file_cbks : FileWriteCbks F) where
  -- The callbacks of the archive reader, on the storage and the error number.
  unfoldable pub tar_start : FileType → List ℕ → F × Errno → ℤ × (F × Errno)
  tar_start regular_file name (file, e) =
      let (eres, file') = file_cbks.file_append_next_entry name file in
      if is_ok eres then (pos 0, (file', e)) else (negsuc 0, (file', eio))
  tar_start _ name u = (pos 0, u)

  unfoldable pub tar_on_file_start : Header → F × Errno → ℤ × (F × Errno)
  tar_on_file_start h u = tar_start (get_file_type h) (get_file_name h) u

  unfoldable pub tar_on_file_data : Header → List ℕ → F × Errno → ℤ × (F × Errno)
  tar_on_file_data h bytes (file, e) =
      let (eres, file') = file_cbks.file_append_chunk bytes file in
      if is_ok eres then (pos 0, (file', e)) else (negsuc 0, (file', e))

  unfoldable pub tar_on_file_end : Header → F × Errno → ℤ × (F × Errno)
  tar_on_file_end h u = (pos 0, u)

  -- `ztar_unpack_init` of a reader that is all zeros.
  unfoldable pub fresh_unpack : F × Errno → Unpack (F × Errno)
  fresh_unpack u = record {
    initialized = true;
    state = header;
    current_header = replicate block_size 0;
    bytes_processed_in_header = 0;
    bytes_processed_in_file = 0;
    bytes_processed_in_padding = 0;
    bytes_processed_in_trailer = 0;
    callbacks = record {
      on_file_start = some tar_on_file_start;
      on_file_data = some tar_on_file_data;
      on_file_end = some tar_on_file_end;
    };
    user_data = u;
  }

  unfoldable pub reader_of : Option (Unpack (F × Errno)) → F × Errno → Unpack (F × Errno)
  reader_of none u = fresh_unpack u
  reader_of (some s) u = record s { user_data = u }
