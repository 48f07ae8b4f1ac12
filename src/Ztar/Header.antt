-- ===== src/Ztar/Header.antt =====
-- `ztar_header_t` of lib/edgehog_device/include/ztar/core.h. A header is its 512 bytes; a field is
-- the slice at the offset that the C structure gives it.
use edgehog_zephyr_device.Prelude.{ℕ, ◌+◌, ◌∷◌, [], List, ◌++◌, take, drop, length}

abbrev pub Header : Type 0
Header = List ℕ

abbrev pub field : ℕ → ℕ → Header → List ℕ
field offset len h = take len (drop offset h)

abbrev pub head_byte : List ℕ → ℕ
head_byte [] = 0
head_byte (b ∷ bs) = b

abbrev pub byte_at : ℕ → List ℕ → ℕ
byte_at i bytes = head_byte (drop i bytes)

abbrev pub name : Header → List ℕ
name h = field 0 100 h

abbrev pub size : Header → List ℕ
size h = field 124 12 h

abbrev pub chksum : Header → List ℕ
chksum h = field 148 8 h

abbrev pub typeflag : Header → ℕ
typeflag h = byte_at 156 h

abbrev pub magic : Header → List ℕ
magic h = field 257 6 h

abbrev pub version : Header → List ℕ
version h = field 263 2 h

abbrev pub prefix : Header → List ℕ
prefix h = field 345 155 h

-- `memcpy(block + offset, bytes, n)`.
abbrev pub write_at : ℕ → List ℕ → List ℕ → List ℕ
write_at offset bytes block = take offset block ++ (bytes ++ drop (offset + length bytes) block)
