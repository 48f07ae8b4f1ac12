-- ===== src/Ztar/Core.antt =====
-- lib/edgehog_device/include/ztar/core.h: block sizes, results, file types, and `size_t`.
use edgehog_zephyr_device.Prelude.{
  ℕ, ◌+◌, ◌-◌, ◌*◌, ◌%◌, ◌^◌, ◌<◌, ◌≡◌, Bool, true, false, arith, ltb, if◌then◌else◌,
}

-- `size_t` of the 32-bit boards that the library targets.
abbrev pub size_mod : ℕ
size_mod = 2 ^ 32

-- ZTAR_BLOCK_SIZE, also the size of the header.
abbrev pub block_size : ℕ
block_size = 512

abbrev pub trailer_size : ℕ
trailer_size = block_size * 2

abbrev pub file_name_buff_size : ℕ
file_name_buff_size = 257

unfoldable pub required_file_padding : ℕ → ℕ
required_file_padding file_size = (block_size - file_size % block_size) % block_size

pub data ZtarResult : Type 0 where
  ok internal_error invalid_args invalid_archive insufficient_buff invalid_magic : ZtarResult
  invalid_version invalid_checksum truncated_file truncated_archive archive_exhausted : ZtarResult
  user_cbk_error : ZtarResult

abbrev pub is_ok : ZtarResult → Bool
is_ok ok = true
is_ok _ = false

pub data FileType : Type 0 where
  regular_file directory unsupported : FileType

-- `size_t` arithmetic.
abbrev pub add_size : ℕ → ℕ → ℕ
add_size a b = (a + b) % size_mod

abbrev pub sub_size : ℕ → ℕ → ℕ
sub_size a b = (a + size_mod - b % size_mod) % size_mod

-- `MIN`
abbrev pub min_size : ℕ → ℕ → ℕ
min_size a b = if ltb a b then a else b

-- The padding completes the last block and is never a whole block.
pub required_file_padding_lem :
    (n : ℕ)
    → ((n + required_file_padding n) % block_size ≡ 0) × (required_file_padding n < block_size)
unfolding required_file_padding
required_file_padding_lem n = omega arith
