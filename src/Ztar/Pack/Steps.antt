-- ===== src/Ztar/Pack/Steps.antt =====
-- The handlers of the writer's states in lib/edgehog_device/ztar/pack.c. Each returns the result, the
-- new state and the bytes that it wrote to the output, at most `remaining` of them.
use edgehog_zephyr_device.Prelude.{
  ℕ, ◌&&◌, List, [], length, replicate, is_negative, ltb, ◌==◌, if◌then◌else◌,
}
use edgehog_zephyr_device.Ztar.Core.{
  ZtarResult, ok, internal_error, invalid_args, truncated_file, user_cbk_error, trailer_size,
  add_size, sub_size, min_size, required_file_padding,
}
use edgehog_zephyr_device.Ztar.Pack.Format.{format_header, formatted, name_too_long, octal_too_long}
use edgehog_zephyr_device.Ztar.Pack.State.{
  Pack, next_file, header, data_block, padding, trailer, done,
}

abbrev pub Step : Type 0 → Type 0
Step U = ZtarResult × Pack U × List ℕ

module _ {U : Type 0} where
  unfoldable pub pack_handle_next_file : Pack U → Step U
  pack_handle_next_file s =
      let next = s.callbacks.get_next_file s.current_file_name s.expected_file_size s.user_data in
      let s' : Pack U = record s {
        current_file_name = next.name;
        expected_file_size = next.size;
        user_data = next.user_data;
      } in
      if is_negative next.result
      then (user_cbk_error, s', [])
      else if next.has_next
      then (ok, record s' { bytes_written_for_file = 0; state = header }, [])
      else (ok, record s' { bytes_processed_in_trailer = 0; state = trailer }, [])

  unfoldable pub pack_handle_header : Pack U → Step U
  pack_handle_header s = elim (format_header s.current_file_name s.expected_file_size) [
    | name_too_long ↦ (invalid_args, s, [])
    | octal_too_long ↦ (internal_error, s, [])
    | formatted block ↦
        if s.expected_file_size == 0
        then (ok, record s { state = next_file }, block)
        else (ok, record s { state = data_block }, block)
  ]

  unfoldable pub pack_handle_data : Pack U → ℕ → Step U
  pack_handle_data s remaining =
      let bytes_to_read =
        min_size remaining (sub_size s.expected_file_size s.bytes_written_for_file) in
      let (read_res, bytes, u) = s.callbacks.read_file_data bytes_to_read s.user_data in
      let s' : Pack U = record s {
        bytes_written_for_file = add_size s.bytes_written_for_file (length bytes);
        user_data = u;
      } in
      if is_negative read_res
      then (user_cbk_error, record s { user_data = u }, [])
      else if length bytes == 0 && ltb 0 bytes_to_read
      then (truncated_file, record s { user_data = u }, [])
      else if s'.bytes_written_for_file == s.expected_file_size
      then (if ltb 0 (required_file_padding s.expected_file_size)
          then (ok, record s' { bytes_processed_in_padding = 0; state = padding }, bytes)
          else (ok, record s' { state = next_file }, bytes))
      else (ok, s', bytes)

  unfoldable pub pack_handle_padding : Pack U → ℕ → Step U
  pack_handle_padding s remaining =
      let total_padding = required_file_padding s.expected_file_size in
      let padding_remaining = sub_size total_padding s.bytes_processed_in_padding in
      let write_padding = min_size remaining padding_remaining in
      let s' : Pack U = record s {
        bytes_processed_in_padding = add_size s.bytes_processed_in_padding write_padding;
      } in
      if s'.bytes_processed_in_padding == total_padding
      then (ok, record s' { state = next_file }, replicate write_padding 0)
      else (ok, s', replicate write_padding 0)

  unfoldable pub pack_handle_trailer : Pack U → ℕ → Step U
  pack_handle_trailer s remaining =
      let trailer_remaining = sub_size trailer_size s.bytes_processed_in_trailer in
      let write_trailer = min_size remaining trailer_remaining in
      let s' : Pack U = record s {
        bytes_processed_in_trailer = add_size s.bytes_processed_in_trailer write_trailer;
      } in
      if s'.bytes_processed_in_trailer == trailer_size
      then (ok, record s' { state = done }, replicate write_trailer 0)
      else (ok, s', replicate write_trailer 0)
