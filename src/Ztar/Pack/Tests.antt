-- ===== src/Ztar/Pack/Tests.antt =====
-- The writer of lib/edgehog_device/ztar/pack.c at concrete inputs: one file of 700 bytes, then the end.
use edgehog_zephyr_device.Prelude.{
  ℕ, zero, suc, ◌+◌, ◌≤◌, ◌<◌, ◌≡◌, refl, true, false, List, [], Option, none, some, arith, length,
  replicate, length-replicate,
}
use edgehog_zephyr_device.Ztar.Core.{ok}
use edgehog_zephyr_device.Ztar.Octal.{print_octal}
use edgehog_zephyr_device.Ztar.Unpack.Validate.{sum_bytes}
use edgehog_zephyr_device.Ztar.Pack.Format.{
  layout, seal, format_chksum, pack_format_octal, split_name, find_split, split_long, format_header,
  format_fields, format_parts, seal_fields,
}
use edgehog_zephyr_device.Ztar.Pack.State.{next_file, Pack, PackCallbacks}
use edgehog_zephyr_device.Ztar.Pack.Steps.{
  pack_handle_next_file, pack_handle_header, pack_handle_data,
}
use edgehog_zephyr_device.Ztar.Pack.Stream.{dispatch, fill_loop, read_stream}
use edgehog_zephyr_device.Ztar.Pack.Steps.{Step}
use edgehog_zephyr_device.Prelude.{pos, codes, ◌*◌}
use edgehog_zephyr_device.Ztar.Pack.Format.{trailing_fields}
use edgehog_zephyr_device.Ztar.Octal.{octal_digits}
use edgehog_zephyr_device.Ztar.Core.{size_mod}
use edgehog_zephyr_device.Ztar.Pack.State.{NextFile}
use edgehog_zephyr_device.Ztar.Pack.Output.{ReadsWithin, read_stream-bound}
use edgehog_zephyr_device.Ztar.Pack.Progress.{SizesFit, read_stream_total}

-- The user data counts the files that are left.
unfoldable next_zeros : List ℕ → ℕ → ℕ → NextFile ℕ
next_zeros name size zero = record {
  result = pos 0;
  has_next = false;
  name = name;
  size = 0;
  user_data = 0;
}
next_zeros name size (suc left) = record {
  result = pos 0;
  has_next = true;
  name = codes "zeros.bin";
  size = 700;
  user_data = left;
}

abbrev zeros : PackCallbacks ℕ
zeros = record { get_next_file = next_zeros; read_file_data = λ n u. (pos 0, replicate n 0, u) }

abbrev writer : Pack ℕ
writer = record {
  initialized = true;
  state = next_file;
  current_file_name = [];
  expected_file_size = 0;
  bytes_written_for_file = 0;
  bytes_processed_in_padding = 0;
  bytes_processed_in_trailer = 0;
  callbacks = zeros;
  user_data = 1;
}

zeros-ReadsWithin : ReadsWithin zeros
zeros-ReadsWithin n u = omega (arith, length-replicate {A = ℕ} n 0)

next_zeros_fits : (name : List ℕ) (size : ℕ) (u : ℕ) → (next_zeros name size u).size < size_mod
unfolding next_zeros
next_zeros_fits name size zero = omega arith
next_zeros_fits name size (suc left) = omega arith

writer-SizesFit : SizesFit writer
writer-SizesFit = record { expected = omega arith; next = next_zeros_fits }

abbrev nothing : Step ℕ
nothing = (ok, writer, [])

abbrev step_of : Option (Step ℕ) → Step ℕ
step_of none = nothing
step_of (some r) = r

-- A buffer for the header and half a block of the file.
abbrev filled : Step ℕ
filled = step_of (read_stream 10 writer 768)

writer_fills : read_stream 10 writer 768 ≡ some filled
unfolding read_stream fill_loop dispatch pack_handle_next_file pack_handle_header pack_handle_data
    next_zeros format_header format_parts format_fields seal_fields seal layout format_chksum
    trailing_fields pack_format_octal split_name split_long find_split print_octal octal_digits
    sum_bytes
writer_fills = refl

read_stream-bound_example : length filled.2 ≤ 768
read_stream-bound_example = read_stream-bound 10 writer 768 zeros-ReadsWithin writer_fills

read_stream_total_example : (r : Step ℕ) × (read_stream (5 * 768 + 5) writer 768 ≡ some r)
read_stream_total_example = read_stream_total writer 768 writer-SizesFit
