-- ===== src/Ztar/Unpack/State.antt =====
-- The state of the parser of lib/edgehog_device/ztar/unpack.c, its set-up, and what it reads off a
-- header. A callback takes the user data and returns the C result with the new user data; a null
-- callback is `none`. Logging is left out.
use edgehog_zephyr_device.Prelude.{
  ℕ, ◌-◌, ◌^◌, ◌%◌, Bool, true, false, ◌&&◌, ◌||◌, List, ◌∷◌, ◌++◌, Option, none, some, ℤ, is_zero,
  take, replicate, c_string, ◌==◌, if◌then◌else◌,
}
use mathlib.Core.Option
use edgehog_zephyr_device.Ztar.Core.{
  ZtarResult, ok, invalid_args, FileType, regular_file, directory, unsupported, size_mod,
  block_size, file_name_buff_size,
}
use edgehog_zephyr_device.Ztar.Header.{Header, byte_at, write_at}
use edgehog_zephyr_device.Ztar.Header
use edgehog_zephyr_device.Ztar.Octal.{strto_octal}

pub data UnpackState : Type 0 where
  header data_block padding trailer : UnpackState

pub record UnpackCallbacks (U : Type 0) : Type 0 where
  pub on_file_start : Option (Header → U → ℤ × U)
  pub on_file_data : Option (Header → List ℕ → U → ℤ × U)
  pub on_file_end : Option (Header → U → ℤ × U)

pub record Unpack (U : Type 0) : Type 0 where
  pub initialized : Bool
  pub state : UnpackState
  pub current_header : Header
  pub bytes_processed_in_header : ℕ
  pub bytes_processed_in_file : ℕ
  pub bytes_processed_in_padding : ℕ
  pub bytes_processed_in_trailer : ℕ
  pub callbacks : UnpackCallbacks U
  pub user_data : U

abbrev is_present {ℓ} : {A : Type ℓ} → Option A → Bool
is_present none = false
is_present (some a) = true

-- `ztar_unpack_get_file_size`: an octal string, at least one digit of it, cast to `size_t`.
unfoldable pub get_file_size : Header → Option ℕ
get_file_size h =
    Option.map (λ parsed_size. parsed_size % size_mod) (strto_octal (2 ^ 64) (Header.size h))

abbrev pub file_type_of : ℕ → FileType
file_type_of typeflag =
    if typeflag == b'0' || typeflag == 0
    then regular_file
    else if typeflag == b'5'
    then directory
    else unsupported

-- `ztar_unpack_get_file_type`
unfoldable pub get_file_type : Header → FileType
get_file_type h = file_type_of (Header.typeflag h)

-- `ztar_unpack_get_file_name`: the string that `snprintf` leaves in the buffer.
unfoldable pub get_file_name : Header → List ℕ
get_file_name h = take (file_name_buff_size - 1) (
    if byte_at 0 (Header.prefix h) == 0
    then c_string (Header.name h)
    else c_string (Header.prefix h) ++ b'/' ∷ c_string (Header.name h))

abbrev pub apply_header {ℓ} : {A : Type ℓ} → Option (Header → A) → Header → Option A
apply_header none h = none
apply_header (some f) h = some (f h)

abbrev pub Step : Type 0 → Type 0
Step U = ZtarResult × Unpack U × ℕ

module _ {U : Type 0} where
  -- `ztar_unpack_init`; `none` for a null stream.
  unfoldable pub init : Option (Unpack U) → UnpackCallbacks U → U → ZtarResult × Option (Unpack U)
  init none callbacks user_data = (invalid_args, none)
  init (some stream) callbacks user_data =
      if is_present callbacks.on_file_start
        && is_present callbacks.on_file_data
        && is_present callbacks.on_file_end
      then (
        ok,
        some (record {
          initialized = true;
          state = header;
          current_header = replicate block_size 0;
          bytes_processed_in_header = 0;
          bytes_processed_in_file = 0;
          bytes_processed_in_padding = 0;
          bytes_processed_in_trailer = 0;
          callbacks = callbacks;
          user_data = user_data;
        }),
      )
      else (invalid_args, some stream)

  unfoldable pub is_initialized : Option (Unpack U) → Bool
  is_initialized none = false
  is_initialized (some stream) = stream.initialized

  -- A callback that is null is not called; one that returns a value other than 0 has failed.
  unfoldable pub invoke : Option (U → ℤ × U) → U → Bool × U
  invoke none u = (true, u)
  invoke (some f) u = let (cbk_res, u') = f u in (is_zero cbk_res, u')
