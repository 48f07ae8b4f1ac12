-- ===== src/Ztar/Unpack/Steps.antt =====
-- The handlers of the four parser states of lib/edgehog_device/ztar/unpack.c. Each takes the bytes
-- from the current offset on, and returns the result, the new state and the bytes consumed.
use edgehog_zephyr_device.Prelude.{
  ℕ, not, List, Option, none, some, ℤ, take, length, ◌==◌, if◌then◌else◌,
}
use edgehog_zephyr_device.Ztar.Core.{
  ZtarResult, ok, invalid_archive, archive_exhausted, user_cbk_error, block_size, trailer_size,
  add_size, sub_size, min_size, required_file_padding,
}
use edgehog_zephyr_device.Ztar.Header.{write_at}
use edgehog_zephyr_device.Ztar.Unpack.Validate.{is_block_of_zeros, validate_header, is_all_zeros}
use edgehog_zephyr_device.Ztar.Unpack.State.{
  header, data_block, padding, trailer, Unpack, Step, get_file_size, invoke, apply_header,
}

module _ {U : Type 0} where
  -- What `stream_process_header` does with a complete header.
  unfoldable pub finish_header : Unpack U → ZtarResult × Unpack U
  unfolding invoke
  finish_header s =
      if is_block_of_zeros s.current_header
      then (ok, record s { bytes_processed_in_trailer = block_size; state = trailer })
      else elim (validate_header s.current_header) [
        | ok ↦
            let (done, u) =
              invoke (apply_header s.callbacks.on_file_start s.current_header) s.user_data in
            (
              if done then ok else user_cbk_error,
              record s { bytes_processed_in_file = 0; state = data_block; user_data = u },
            )
        | zres ↦ (zres, s)
      ]

  -- The `memcpy` of the next `bytes_to_copy` bytes into the header.
  unfoldable pub fill_header : ℕ → Unpack U → List ℕ → Unpack U
  fill_header bytes_to_copy s bytes = record s {
    current_header =
        write_at s.bytes_processed_in_header (take bytes_to_copy bytes) s.current_header;
    bytes_processed_in_header = add_size s.bytes_processed_in_header bytes_to_copy;
  }

  unfoldable pub stream_process_header : Unpack U → List ℕ → Step U
  stream_process_header s bytes =
      let header_bytes_needed = sub_size block_size s.bytes_processed_in_header in
      let bytes_to_copy = min_size (length bytes) header_bytes_needed in
      let s' = fill_header bytes_to_copy s bytes in
      if s'.bytes_processed_in_header == block_size
      then (let (zres, s'') = finish_header s' in (zres, s'', bytes_to_copy))
      else (ok, s', bytes_to_copy)

  -- `stream_process_data`, past the reading of the file size.
  unfoldable pub process_data : ℕ → Unpack U → List ℕ → Step U
  unfolding invoke
  process_data file_size s bytes =
      let file_bytes_needed = sub_size file_size s.bytes_processed_in_file in
      let bytes_to_process = min_size (length bytes) file_bytes_needed in
      let on_data : Option (U → ℤ × U) =
        if bytes_to_process == 0 then none else elim s.callbacks.on_file_data [
          | none ↦ none
          | some f ↦ some (f s.current_header (take bytes_to_process bytes))
        ] in
      let (data_done, u) = invoke on_data s.user_data in
      let s' : Unpack U = record s {
        bytes_processed_in_file = add_size s.bytes_processed_in_file bytes_to_process;
        user_data = u;
      } in
      let (end_done, u') = invoke (apply_header s.callbacks.on_file_end s.current_header) u in
      if not data_done
      then (user_cbk_error, record s { user_data = u }, 0)
      else if not (s'.bytes_processed_in_file == file_size)
      then (ok, s', bytes_to_process)
      else if not end_done
      then (user_cbk_error, record s' { user_data = u' }, 0)
      else if required_file_padding file_size == 0
      then (
        ok,
        record s' { bytes_processed_in_header = 0; state = header; user_data = u' },
        bytes_to_process,
      )
      else (
        ok,
        record s' { bytes_processed_in_padding = 0; state = padding; user_data = u' },
        bytes_to_process,
      )

  unfoldable pub stream_process_data : Unpack U → List ℕ → Step U
  stream_process_data s bytes = elim (get_file_size s.current_header) [
    | none ↦ (invalid_archive, s, 0)
    | some file_size ↦ process_data file_size s bytes
  ]

  -- `stream_process_padding`, past the reading of the file size.
  unfoldable pub process_padding : ℕ → Unpack U → List ℕ → Step U
  process_padding file_size s bytes =
      let required_padding = required_file_padding file_size in
      let file_bytes_needed = sub_size required_padding s.bytes_processed_in_padding in
      let bytes_to_process = min_size (length bytes) file_bytes_needed in
      let s' : Unpack U = record s {
        bytes_processed_in_padding = add_size s.bytes_processed_in_padding bytes_to_process;
      } in
      if not (is_all_zeros bytes_to_process bytes)
      then (invalid_archive, s, 0)
      else if s'.bytes_processed_in_padding == required_padding
      then (ok, record s' { bytes_processed_in_header = 0; state = header }, bytes_to_process)
      else (ok, s', bytes_to_process)

  unfoldable pub stream_process_padding : Unpack U → List ℕ → Step U
  stream_process_padding s bytes = elim (get_file_size s.current_header) [
    | none ↦ (invalid_archive, s, 0)
    | some file_size ↦ process_padding file_size s bytes
  ]

  unfoldable pub stream_process_trailer : Unpack U → List ℕ → Step U
  stream_process_trailer s bytes =
      let trailer_bytes_needed = sub_size trailer_size s.bytes_processed_in_trailer in
      let bytes_to_consume = min_size (length bytes) trailer_bytes_needed in
      let s' : Unpack U = record s {
        bytes_processed_in_trailer = add_size s.bytes_processed_in_trailer bytes_to_consume;
      } in
      if s.bytes_processed_in_trailer == trailer_size
      then (archive_exhausted, s, 0)
      else if not (is_all_zeros bytes_to_consume bytes)
      then (invalid_archive, s, 0)
      else if s'.bytes_processed_in_trailer == trailer_size
      then (archive_exhausted, s', 0)
      else (ok, s', bytes_to_consume)
