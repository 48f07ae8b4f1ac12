-- ===== src/Ztar/Unpack/Validate.antt =====
-- The checks that lib/edgehog_device/ztar/unpack.c makes on a header block: the end marker, and
-- `validate_header` with the functions that it calls.
use edgehog_zephyr_device.Prelude.{
  Option, none, some, ℕ, ◌+◌, ◌-◌, ◌%◌, ◌^◌, Bool, ◌&&◌, List, [], ◌∷◌, take, drop, bytes_eq, ◌==◌,
  if◌then◌else◌,
}
use edgehog_zephyr_device.Ztar.Core.{
  ZtarResult, ok, invalid_magic, invalid_version, invalid_checksum, sub_size, block_size,
}
use edgehog_zephyr_device.Ztar.Header.{Header, byte_at}
use edgehog_zephyr_device.Ztar.Header
use edgehog_zephyr_device.Ztar.Octal.{strto_octal}

-- `(data[0] == 0) && (memcmp(data, data + 1, size - 1) == 0)`, with `size - 1` in `size_t`.
unfoldable pub is_all_zeros : ℕ → List ℕ → Bool
is_all_zeros size bytes =
    byte_at 0 bytes == 0
    && bytes_eq (take (sub_size size 1) bytes) (take (sub_size size 1) (drop 1 bytes))

unfoldable pub is_block_of_zeros : Header → Bool
unfolding is_all_zeros
is_block_of_zeros h = is_all_zeros block_size h

abbrev pub ustar_magic : List ℕ
ustar_magic = b'u' ∷ b's' ∷ b't' ∷ b'a' ∷ b'r' ∷ 0 ∷ []

abbrev pub ustar_version : List ℕ
ustar_version = b'0' ∷ b'0' ∷ []

unfoldable pub validate_magic : Header → ZtarResult
validate_magic h = if bytes_eq (Header.magic h) ustar_magic then ok else invalid_magic

unfoldable pub validate_version : Header → ZtarResult
validate_version h = if bytes_eq (Header.version h) ustar_version then ok else invalid_version

-- `strtoul` gives 0 where there is nothing to convert.
unfoldable pub or_zero : Option ℕ → ℕ
or_zero none = 0
or_zero (some v) = v

unfoldable pub get_chksum : Header → ℕ
get_chksum h = or_zero (strto_octal (2 ^ 32) (Header.chksum h)) % 2 ^ 32

-- The sum of all bytes, in `uint32_t`.
unfoldable pub sum_bytes : ℕ → List ℕ → ℕ
sum_bytes acc [] = acc
sum_bytes acc (b ∷ bs) = sum_bytes ((acc + b) % 2 ^ 32) bs

-- Each byte of the checksum field is taken out of the sum, and a space put in.
unfoldable pub replace_chksum : ℕ → List ℕ → ℕ
replace_chksum acc [] = acc
replace_chksum acc (b ∷ bs) =
    replace_chksum (((acc + 2 ^ 32 - b % 2 ^ 32) % 2 ^ 32 + b' ') % 2 ^ 32) bs

unfoldable pub validate_chksum : Header → ZtarResult
validate_chksum h =
    if replace_chksum (sum_bytes 0 h) (Header.chksum h) == get_chksum h
    then ok
    else invalid_checksum

-- `if (zres != ZTAR_RESULT_OK) return zres;`, then the next check.
unfoldable pub and_then : ZtarResult → ZtarResult → ZtarResult
and_then ok next = next
and_then zres next = zres

unfoldable pub validate_header : Header → ZtarResult
unfolding and_then
validate_header h = and_then (validate_magic h) (and_then (validate_version h) (validate_chksum h))
