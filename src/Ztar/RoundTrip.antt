-- ===== src/Ztar/RoundTrip.antt =====
-- A header that lib/edgehog_device/ztar/pack.c writes is one that lib/edgehog_device/ztar/unpack.c
-- accepts, and reads the same file name, size and type from.
use edgehog_zephyr_device.Prelude.{
  ℕ, suc, ◌^◌, ◌≤◌, ◌<◌, ◌≡◌, ◌≢◌, refl, ap, sym, ◌∙◌, subst, inl, inr, List, [], ◌∷◌, ◌++◌, Option,
  none, some, arith, length, length-append,
}
use edgehog_zephyr_device.Ztar.Core.{ok, size_mod, block_size, regular_file}
use edgehog_zephyr_device.Ztar.Header.{Header, byte_at}
use edgehog_zephyr_device.Ztar.Header
use edgehog_zephyr_device.Ztar.Octal.{print_octal}
use edgehog_zephyr_device.Ztar.Octal.RoundTrip.{print_octal-Printed, strto_octal-Printed}
use edgehog_zephyr_device.Ztar.Unpack.State.{
  get_file_size, get_file_type, get_file_name, file_type_of,
}
use edgehog_zephyr_device.Ztar.Unpack.Validate.{validate_header}
use edgehog_zephyr_device.Ztar.Pack.Format.{
  Fields, layout, seal, copy_field, split_name, find_split, split_long, format_header,
  format_fields, format_parts, seal_fields, formatted, file_mode_default,
}
use edgehog_zephyr_device.Ztar.Pack.Layout.{
  name-layout, size-layout, typeflag-layout, prefix-layout, length-layout,
}
use edgehog_zephyr_device.Ztar.Pack.Names.{
  IsText, Splits, split_name-Splits, length-copy_field, join_name, get_file_name-fields,
}
use edgehog_zephyr_device.Ztar.Pack.Checksum.{IsBytes, IsBytes-append}
use edgehog_zephyr_device.Ztar.Pack.Sound.{IsSound, octal_field, copy_field-IsBytes, octal-IsBytes}
use edgehog_zephyr_device.Ztar.Pack.Seal.{seal-Sealed, Sized-chksum, validate_header-layout}

-- The fields that are formatted for a split name and a size.
abbrev fields_of : List ℕ → List ℕ → ℕ → Fields
fields_of prefix name file_size = record {
  prefix = copy_field 155 prefix;
  name = copy_field 100 name;
  mode = print_octal 7 file_mode_default ++ 0 ∷ [];
  id = print_octal 7 0 ++ 0 ∷ [];
  size = print_octal 11 file_size ++ 0 ∷ [];
  mtime = print_octal 11 0 ++ 0 ∷ [];
}

octal_nul-IsBytes : (w v : ℕ) → v < 8 ^ suc w → w ≤ 21 → IsBytes (print_octal (suc w) v ++ 0 ∷ [])
octal_nul-IsBytes w v h k =
    IsBytes-append (print_octal (suc w) v) (0 ∷ [])
      (octal-IsBytes (print_octal (suc w) v) (print_octal-Printed w v h k).octal) (omega arith)

length-octal_nul :
    (w v : ℕ) → v < 8 ^ suc w → w ≤ 21 → length (print_octal (suc w) v ++ 0 ∷ []) ≡ suc (suc w)
length-octal_nul w v h k =
    omega
      (arith, length-append (print_octal (suc w) v) (0 ∷ []), (print_octal-Printed w v h k).long)

fields_of-IsSound :
    (prefix name : List ℕ) (file_size : ℕ)
    → IsText prefix
    → IsText name
    → length prefix ≤ 155
    → length name ≤ 100
    → file_size < size_mod
    → IsSound (fields_of prefix name file_size)
fields_of-IsSound prefix name file_size tp tn lp ln h = record {
  sized = λ chksum e. record {
    name = length-copy_field 100 name ln;
    mode = length-octal_nul 6 file_mode_default (omega arith) (omega arith);
    id = length-octal_nul 6 0 (omega arith) (omega arith);
    size = length-octal_nul 10 file_size (omega arith) (omega arith);
    mtime = length-octal_nul 10 0 (omega arith) (omega arith);
    chk = e;
    prefix = length-copy_field 155 prefix lp;
  };
  name_bytes = copy_field-IsBytes 100 name tn;
  mode_bytes = octal_nul-IsBytes 6 file_mode_default (omega arith) (omega arith);
  id_bytes = octal_nul-IsBytes 6 0 (omega arith) (omega arith);
  size_bytes = octal_nul-IsBytes 10 file_size (omega arith) (omega arith);
  mtime_bytes = octal_nul-IsBytes 10 0 (omega arith) (omega arith);
  prefix_bytes = copy_field-IsBytes 155 prefix tp;
}

format_fields_lem :
    (prefix name : List ℕ) (file_size : ℕ)
    → file_size < size_mod
    → format_fields prefix name file_size ≡ some (fields_of prefix name file_size)
unfolding format_fields
format_fields_lem prefix name file_size h = rw (
  octal_field 6 file_mode_default (omega arith) (omega arith),
  octal_field 6 0 (omega arith) (omega arith),
  octal_field 10 file_size (omega arith) (omega arith),
  octal_field 10 0 (omega arith) (omega arith),
)

-- What a header that was written says, for the parts of a name and a size.
record Reads (h : Header) (prefix name : List ℕ) (file_size : ℕ) : Type 0 where
  whole : length h ≡ block_size
  valid : validate_header h ≡ ok
  size : get_file_size h ≡ some file_size
  type : get_file_type h ≡ regular_file
  full_name : get_file_name h ≡ join_name prefix name

seal-Reads :
    (prefix name : List ℕ) (file_size : ℕ)
    → IsText prefix
    → IsText name
    → length prefix ≤ 155
    → length name ≤ 100
    → file_size < size_mod
    → Reads (seal (fields_of prefix name file_size)) prefix name file_size
unfolding get_file_size get_file_type
seal-Reads prefix name file_size tp tn lp ln k =
    let f = fields_of prefix name file_size in
    let g = fields_of-IsSound prefix name file_size tp tn lp ln k in
    let w = seal-Sealed f g in
    let z = Sized-chksum f g w in
    let h = layout f w.chksum in
    let read =
      strto_octal-Printed (2 ^ 64) 10 file_size (print_octal 11 file_size) []
        (print_octal-Printed 10 file_size (omega arith) (omega arith)) (omega arith) in
    rw w.written (record {
      whole = length-layout f w.chksum z;
      valid = validate_header-layout f g w;
      size = rw (size-layout f w.chksum z, read, get_file_size) (ap some (omega arith));
      type = ap file_type_of (typeflag-layout f w.chksum z);
      full_name =
          get_file_name-fields h prefix name tp tn lp ln (prefix-layout f w.chksum z)
            (name-layout f w.chksum z);
    })

-- The header comes from a split of the name.
record Written (file_name : List ℕ) (file_size : ℕ) (h : Header) : Type 0 where
  parts : List ℕ × List ℕ
  splits : Splits file_name parts
  reads : Reads h parts.0 parts.1 file_size

formatted-injective : (h k : Header) → formatted h ≡ formatted k → h ≡ k
formatted-injective h k e = cc

format_parts-Written :
    (file_name : List ℕ) (file_size : ℕ) (parts : Option (List ℕ × List ℕ)) {h : Header}
    → IsText file_name
    → file_size < size_mod
    → split_name file_name ≡ parts
    → format_parts parts file_size ≡ formatted h
    → Written file_name file_size h
unfolding format_parts seal_fields
format_parts-Written file_name file_size none t k p e = cc
format_parts-Written file_name file_size (some (prefix, name)) {h} t k p e =
    let s = split_name-Splits file_name t p in
    let written : formatted (seal (fields_of prefix name file_size)) ≡ formatted h =
      rw (format_fields_lem prefix name file_size k) at e in
    record {
      parts = (prefix, name);
      splits = s;
      reads =
          subst (λ b. Reads b prefix name file_size) (formatted-injective _ h written)
            (seal-Reads prefix name file_size s.prefix_text s.name_text s.prefix_fits s.name_fits
              k);
    }

format_header-Written :
    (file_name : List ℕ) (file_size : ℕ) {h : Header}
    → IsText file_name
    → file_size < size_mod
    → format_header file_name file_size ≡ formatted h
    → Written file_name file_size h
unfolding format_header
format_header-Written file_name file_size t k e =
    format_parts-Written file_name file_size (split_name file_name) t k refl e

-- For a file name without NUL bytes and a size that a `size_t` holds, the header that the writer
-- formats is a whole block, passes all checks of the reader (magic, version, checksum), and the
-- reader finds the same file size and a regular file in it.
pub validate_header-format_header :
    (file_name : List ℕ) (file_size : ℕ) {h : Header}
    → IsText file_name
    → file_size < size_mod
    → format_header file_name file_size ≡ formatted h
    → (length h ≡ block_size)
      × (validate_header h ≡ ok)
      × (get_file_size h ≡ some file_size)
      × (get_file_type h ≡ regular_file)
validate_header-format_header file_name file_size t k e =
    let r = (format_header-Written file_name file_size t k e).reads in
    (r.whole, r.valid, r.size, r.type)

-- The name that comes out, by what the split was.
joined-name :
    (file_name prefix name : List ℕ)
    → Splits file_name (prefix, name)
    → (length file_name ≡ 101 → byte_at 0 file_name ≢ b'/')
    → join_name prefix name ≡ file_name
joined-name file_name [] name s absolute = elim s.joined [
  | inl (_, same, _) ↦ same
  | inr (same, long) ↦
      absurd (
        absolute (omega (arith, ap length same, s.name_fits, long))
          (sym (ap Header.head_byte same)))
]
joined-name file_name (c ∷ cs) name s absolute = elim s.joined [
  | inl (none_before, _, _) ↦ cc
  | inr (same, _) ↦ same
]

-- For a file name without NUL bytes and a size that a `size_t` holds, the reader gives the name back
-- that the writer was given, unless the name has 101 bytes and starts with '/'.
pub get_file_name-format_header :
    (file_name : List ℕ) (file_size : ℕ) {h : Header}
    → IsText file_name
    → file_size < size_mod
    → (length file_name ≡ 101 → byte_at 0 file_name ≢ b'/')
    → format_header file_name file_size ≡ formatted h
    → get_file_name h ≡ file_name
get_file_name-format_header file_name file_size t k absolute e =
    let w = format_header-Written file_name file_size t k e in
    w.reads.full_name ∙ joined-name file_name w.parts.0 w.parts.1 w.splits absolute

split_name-absolute :
    (name : List ℕ) → length name ≡ 100 → split_name (b'/' ∷ name) ≡ some ([], name)
unfolding split_name find_split split_long
split_name-absolute name e = rw e refl

-- A name of 101 bytes without NUL that starts with '/' comes back without it, for a size that a
-- `size_t` holds.
pub get_file_name-absolute :
    (name : List ℕ) (file_size : ℕ) {h : Header}
    → IsText name
    → length name ≡ 100
    → file_size < size_mod
    → format_header (b'/' ∷ name) file_size ≡ formatted h
    → get_file_name h ≡ name
unfolding format_header format_parts seal_fields
get_file_name-absolute name file_size {h} t l k e =
    let written : formatted (seal (fields_of [] name file_size)) ≡ formatted h =
      rw (split_name-absolute name l, format_fields_lem [] name file_size k) at e in
    let r = seal-Reads [] name file_size tt t (omega arith) (omega (arith, l)) k in
    subst (λ b. get_file_name b ≡ name) (formatted-injective _ h written) r.full_name
