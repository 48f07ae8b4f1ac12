-- ===== src/Ztar/Tests.antt =====
-- The archive reader and writer of lib/edgehog_device/ztar at concrete inputs: a small file, a long
-- name, and an archive that ends at once.
use edgehog_zephyr_device.Prelude.{
  true, ℕ, ◌+◌, ◌≡◌, refl, List, [], ◌∷◌, ◌++◌, Option, none, some, arith, length, replicate, codes,
  pos,
}
use edgehog_zephyr_device.Ztar.Core.{ZtarResult, ok, regular_file, block_size}
use edgehog_zephyr_device.Ztar.Header.{Header}
use edgehog_zephyr_device.Ztar.Octal.{print_octal, octal_digits, strto_octal}
use edgehog_zephyr_device.Ztar.Unpack.Validate.{
  validate_header, validate_magic, validate_version, validate_chksum, and_then, get_chksum, or_zero,
  replace_chksum, sum_bytes, is_block_of_zeros, is_all_zeros,
}
use edgehog_zephyr_device.Ztar.Unpack.State.{
  Unpack, UnpackCallbacks, get_file_size, get_file_type, get_file_name, init, header, invoke,
}
use edgehog_zephyr_device.Ztar.Unpack.Process.{process, process_loop, dispatch}
use edgehog_zephyr_device.Ztar.Unpack.Steps.{
  stream_process_header, fill_header, finish_header, stream_process_data, process_data,
}
use edgehog_zephyr_device.Ztar.Unpack.Progress.{process_total}
use edgehog_zephyr_device.Ztar.Unpack.Invariant.{IsValid, process-IsValid, init-IsValid}
use edgehog_zephyr_device.Ztar.Pack.Format.{
  Formatted, formatted, name_too_long, octal_too_long, format_header, format_parts, format_fields,
  seal_fields, seal, layout, format_chksum, trailing_fields, pack_format_octal, split_name,
  split_long, find_split,
}
use edgehog_zephyr_device.Ztar.RoundTrip.{
  validate_header-format_header, get_file_name-format_header, get_file_name-absolute,
}

-- The header of a result.
abbrev header_of : Formatted → Header
header_of (formatted h) = h
header_of name_too_long = []
header_of octal_too_long = []

abbrev file_name : List ℕ
file_name = codes "dir/a.txt"

abbrev small_header : Header
small_header = header_of (format_header file_name 700)

small_formatted : format_header file_name 700 ≡ formatted small_header
unfolding format_header format_parts format_fields seal_fields seal layout format_chksum
    trailing_fields pack_format_octal split_name split_long find_split print_octal octal_digits
    sum_bytes
small_formatted = refl

validate_header-format_header_example :
    (length small_header ≡ block_size)
    × (validate_header small_header ≡ ok)
    × (get_file_size small_header ≡ some 700)
    × (get_file_type small_header ≡ regular_file)
validate_header-format_header_example =
    validate_header-format_header file_name 700 (ground arith) (omega arith) small_formatted

get_file_name-format_header_example : get_file_name small_header ≡ file_name
get_file_name-format_header_example =
    get_file_name-format_header file_name 700 (ground arith) (omega arith) (ground arith)
      small_formatted

-- A '/' and a hundred letters.
abbrev letters : List ℕ
letters = replicate 100 b'a'

abbrev absolute_header : Header
absolute_header = header_of (format_header (b'/' ∷ letters) 1)

absolute_formatted : format_header (b'/' ∷ letters) 1 ≡ formatted absolute_header
unfolding format_header format_parts format_fields seal_fields seal layout format_chksum
    trailing_fields pack_format_octal split_name split_long find_split print_octal octal_digits
    sum_bytes
absolute_formatted = refl

get_file_name-absolute_example : get_file_name absolute_header ≡ letters
get_file_name-absolute_example =
    get_file_name-absolute letters 1 (ground arith) refl (omega arith) absolute_formatted

-- Callbacks that count the bytes of the files.
abbrev counting : UnpackCallbacks ℕ
counting = record {
  on_file_start = some (λ h u. (pos 0, u));
  on_file_data = some (λ h bytes u. (pos 0, u + length bytes));
  on_file_end = some (λ h u. (pos 0, u));
}

abbrev fresh : Unpack ℕ
fresh = record {
  initialized = true;
  state = header;
  current_header = replicate block_size 0;
  bytes_processed_in_header = 0;
  bytes_processed_in_file = 0;
  bytes_processed_in_padding = 0;
  bytes_processed_in_trailer = 0;
  callbacks = counting;
  user_data = 0;
}

init-fresh : init (some fresh) counting 0 ≡ (ok, some fresh)
unfolding init
init-fresh = refl

-- The header of a file and three of its bytes.
abbrev archive : List ℕ
archive = small_header ++ (1 ∷ 2 ∷ 3 ∷ [])

process_total_example : (r : ZtarResult × Unpack ℕ) × (process fresh (some archive) ≡ some r)
process_total_example = process_total fresh (some archive)

abbrev state_of : Option (ZtarResult × Unpack ℕ) → Unpack ℕ
state_of none = fresh
state_of (some (z, t)) = t

abbrev in_file : Unpack ℕ
in_file = state_of (process fresh (some archive))

in_file_processed : process fresh (some archive) ≡ some (ok, in_file)
unfolding format_header format_parts format_fields seal_fields seal layout format_chksum
    trailing_fields pack_format_octal split_name split_long find_split print_octal octal_digits
    sum_bytes process process_loop dispatch stream_process_header fill_header finish_header
    is_block_of_zeros is_all_zeros validate_header validate_magic validate_version validate_chksum
    and_then get_chksum or_zero replace_chksum invoke get_file_size stream_process_data process_data
    strto_octal
in_file_processed = refl

process-IsValid_example : IsValid in_file
process-IsValid_example =
    process-IsValid fresh (some archive) (init-IsValid fresh counting 0 init-fresh)
      in_file_processed
