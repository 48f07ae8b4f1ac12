-- ===== src/Ztar/Pack/Format.antt =====
-- The header block that `pack_handle_header` of lib/edgehog_device/ztar/pack.c writes: the split of a
-- long name, the octal fields and the checksum. A name is the bytes of a C string, without its NUL.
use edgehog_zephyr_device.Prelude.{
  ℕ, suc, ◌+◌, ◌-◌, ◌&&◌, List, [], ◌∷◌, ◌++◌, Option, none, some, take, drop, length, replicate,
  set, leb, ◌==◌, if◌then◌else◌,
}
use edgehog_zephyr_device.Ztar.Header.{Header}
use edgehog_zephyr_device.Ztar.Octal.{print_octal}
use edgehog_zephyr_device.Ztar.Unpack.Validate.{sum_bytes, ustar_magic, ustar_version}

-- `pack_format_octal`: the field, which was zeroed before; `none` where the number does not fit.
unfoldable pub pack_format_octal : ℕ → ℕ → Option (List ℕ)
pack_format_octal value out_size =
    let text = print_octal (out_size - 1) value in
    if out_size == 0
    then none
    else if leb out_size (length text)
    then none
    else some (text ++ replicate (out_size - length text) 0)

-- `strncpy` of a string into a zeroed field, and `memcpy` of a prefix that is not longer.
abbrev pub copy_field : ℕ → List ℕ → List ℕ
copy_field size s = take size s ++ replicate (size - length s) 0

-- The `while (split_ptr)` loop: the first '/' from index `i` on that leaves a prefix of at most 155
-- bytes before it and a name of at most 100 bytes behind it.
unfoldable pub find_split : ℕ → ℕ → List ℕ → Option ℕ
find_split name_len i [] = none
find_split name_len i (c ∷ cs) =
    if c == b'/' && leb i 155 && leb (name_len - i - 1) 100
    then some i
    else find_split name_len (i + 1) cs

-- What is copied for the split that the loop found.
unfoldable pub split_long : List ℕ → Option ℕ → Option (List ℕ × List ℕ)
split_long file_name none = none
split_long file_name (some prefix_len) =
    some (take prefix_len file_name, drop (suc prefix_len) file_name)

-- The prefix and name fields; `none` for a name that cannot be split.
unfoldable pub split_name : List ℕ → Option (List ℕ × List ℕ)
split_name file_name =
    if leb (length file_name) 100
    then some ([], file_name)
    else split_long file_name (find_split (length file_name) 0 file_name)

-- The fields of the header that are not the same for every file.
pub record Fields : Type 0 where
  pub prefix : List ℕ
  pub name : List ℕ
  pub mode : List ℕ
  pub id : List ℕ
  pub size : List ℕ
  pub mtime : List ℕ

-- The header behind the checksum field: typeflag '0', no link name, magic and version, no owner
-- names and device numbers, the prefix, the padding.
unfoldable pub trailing_fields : List ℕ → List ℕ
trailing_fields prefix =
    b'0'
    ∷ (replicate 100 0
        ++ (ustar_magic ++ (ustar_version ++ (replicate 80 0 ++ (prefix ++ replicate 12 0)))))

-- The 512 bytes, in the order of `ztar_header_t`, around a checksum field.
unfoldable pub layout : Fields → List ℕ → Header
layout f chksum =
    f.name
    ++ (f.mode ++ (f.id ++ (f.id ++ (f.size ++ (f.mtime ++ (chksum ++ trailing_fields f.prefix))))))

-- `memset(chksum, ' ')`, `snprintf("%06o")`, then NUL at index 6 and a space at index 7.
unfoldable pub format_chksum : ℕ → List ℕ
format_chksum chksum =
    let text = take 7 (print_octal 6 chksum) in
    set (set (text ++ 0 ∷ replicate (7 - length text) b' ') 6 0) 7 b' '

unfoldable pub seal : Fields → Header
seal f = layout f (format_chksum (sum_bytes 0 (layout f (replicate 8 b' '))))

-- FILE_MODE_DEFAULT, 0644 in octal.
abbrev pub file_mode_default : ℕ
file_mode_default = 0o644

pub data Formatted : Type 0 where
  formatted : Header → Formatted
  name_too_long : Formatted
  octal_too_long : Formatted

infixl 5 ◌>>=◌
abbrev pub ◌>>=◌ : Option (List ℕ) → (List ℕ → Option Fields) → Option Fields
none >>= f = none
some text >>= f = f text

-- The formatted fields; `none` where a number does not fit.
unfoldable pub format_fields : List ℕ → List ℕ → ℕ → Option Fields
format_fields prefix name file_size = do
  mode ← pack_format_octal file_mode_default 8
  id ← pack_format_octal 0 8
  size ← pack_format_octal file_size 12
  mtime ← pack_format_octal 0 12
  some (record {
    prefix = copy_field 155 prefix;
    name = copy_field 100 name;
    mode = mode;
    id = id;
    size = size;
    mtime = mtime;
  })

unfoldable pub seal_fields : Option Fields → Formatted
seal_fields none = octal_too_long
seal_fields (some f) = formatted (seal f)

unfoldable pub format_parts : Option (List ℕ × List ℕ) → ℕ → Formatted
format_parts none file_size = name_too_long
format_parts (some (prefix, name)) file_size = seal_fields (format_fields prefix name file_size)

-- The header of a file, up to the `memcpy` to the output.
unfoldable pub format_header : List ℕ → ℕ → Formatted
format_header file_name file_size = format_parts (split_name file_name) file_size
