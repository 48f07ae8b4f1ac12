-- ===== src/Ztar/Pack/Bounds.antt =====
-- How many bytes the writer of lib/edgehog_device/ztar/pack.c puts in the output buffer.
use edgehog_zephyr_device.Prelude.{
  ℕ, zero, suc, ◌-◌, ◌≤◌, ◌≡◌, refl, ap, subst, List, [], ◌∷◌, ◌++◌, Option, none, some, arith, leb,
  take, length, set, replicate, length-append, length-take, length-drop, length-replicate,
  Bool-cases, Option-cases, inl, inr,
}
use edgehog_zephyr_device.Ztar.Core.{block_size}
use edgehog_zephyr_device.Ztar.Octal.{print_octal}
use edgehog_zephyr_device.Ztar.Unpack.Validate.{sum_bytes}
use edgehog_zephyr_device.Ztar.Header.{Header}
use edgehog_zephyr_device.Ztar.Pack.Format.{
  Fields, formatted, layout, seal, format_chksum, pack_format_octal, split_name, find_split,
  split_long, format_header, format_fields, format_parts, seal_fields, file_mode_default,
}
use edgehog_zephyr_device.Ztar.Pack.Layout.{Sized, length-layout}
use edgehog_zephyr_device.Ztar.Pack.Names.{length-copy_field, find_split-Found}

length-pack_format_octal :
    (value out_size : ℕ) {text : List ℕ}
    → pack_format_octal value out_size ≡ some text
    → length text ≡ out_size
unfolding pack_format_octal
length-pack_format_octal value out_size e =
    let text = print_octal (out_size - 1) value in
    ground (
      arith,
      length-append text (replicate (out_size - length text) 0),
      length-replicate {A = ℕ} (out_size - length text) 0,
    )

length-set : (i v : ℕ) (xs : List ℕ) → length (set xs i v) ≡ length xs
length-set i v [] = refl
length-set zero v (x ∷ xs) = refl
length-set (suc i) v (x ∷ xs) = ap suc (length-set i v xs)

length-format_chksum : (chksum : ℕ) → length (format_chksum chksum) ≡ 8
unfolding format_chksum
length-format_chksum chksum =
    let text = take 7 (print_octal 6 chksum) in
    let space : ℕ = b' ' in
    let end : List ℕ = 0 ∷ replicate (7 - length text) space in
    omega (
      arith,
      length-set 7 space (set (text ++ end) 6 0),
      length-set 6 0 (text ++ end),
      length-append text end,
      length-take 7 (print_octal 6 chksum),
      length-replicate {A = ℕ} (7 - length text) space,
    )

-- The parts of a split name fit their fields.
split_long-fits :
    (file_name prefix name : List ℕ) (found : Option ℕ)
    → find_split (length file_name) 0 file_name ≡ found
    → split_long file_name found ≡ some (prefix, name)
    → (length prefix ≤ 155) × (length name ≤ 100)
unfolding split_long
split_long-fits file_name prefix name none f e = ground arith
split_long-fits file_name prefix name (some k) f e =
    let found = find_split-Found (length file_name) 0 file_name f in
    ground (arith, found, length-take k file_name, length-drop (suc k) file_name)

split_name-fits :
    (file_name prefix name : List ℕ)
    → split_name file_name ≡ some (prefix, name)
    → (length prefix ≤ 155) × (length name ≤ 100)
unfolding split_name
split_name-fits file_name prefix name e = elim (Bool-cases (leb (length file_name) 100)) [
  | inl p ↦ let same : some ([], file_name) ≡ some (prefix, name) = rw p at e in ground arith
  | inr p ↦
      split_long-fits file_name prefix name (find_split (length file_name) 0 file_name) refl
        (rw p at e)
]

none-some : (f : Fields) → (none ≡ some f) → ⊥
none-some f e = ground arith

fields-injective : (f g : Fields) → some f ≡ some g → f ≡ g
fields-injective f g e = cc

formatted-injective : (h k : Header) → formatted h ≡ formatted k → h ≡ k
formatted-injective h k e = cc

-- The fields that are formatted have the lengths of the header's.
fields-Sized :
    (prefix name : List ℕ) (file_size : ℕ) (chksum : List ℕ) {f : Fields}
    → length prefix ≤ 155
    → length name ≤ 100
    → length chksum ≡ 8
    → format_fields prefix name file_size ≡ some f
    → Sized f chksum
unfolding format_fields
fields-Sized prefix name file_size chksum {f} lp ln c e =
    elim (Option-cases (pack_format_octal file_mode_default 8)) [
      | inl p ↦ absurd (none-some f (rw p at e))
      | inr (mode, p) ↦ elim (Option-cases (pack_format_octal 0 8)) [
        | inl q ↦ absurd (none-some f (rw (p, q) at e))
        | inr (id, q) ↦ elim (Option-cases (pack_format_octal file_size 12)) [
          | inl r ↦ absurd (none-some f (rw (p, q, r) at e))
          | inr (size, r) ↦ elim (Option-cases (pack_format_octal 0 12)) [
            | inl u ↦ absurd (none-some f (rw (p, q, r, u) at e))
            | inr (mtime, u) ↦
                subst (λ g. Sized g chksum) (fields-injective _ f (rw (p, q, r, u) at e))
                  (record {
                    name = length-copy_field 100 name ln;
                    mode = length-pack_format_octal file_mode_default 8 p;
                    id = length-pack_format_octal 0 8 q;
                    size = length-pack_format_octal file_size 12 r;
                    mtime = length-pack_format_octal 0 12 u;
                    chk = c;
                    prefix = length-copy_field 155 prefix lp;
                  })
          ]
        ]
      ]
    ]

length-seal :
    (f : Fields)
    → ((chksum : List ℕ) → length chksum ≡ 8 → Sized f chksum)
    → length (seal f) ≡ block_size
unfolding seal
length-seal f z =
    let chksum = format_chksum (sum_bytes 0 (layout f (replicate 8 b' '))) in
    length-layout f chksum
      (z chksum (length-format_chksum (sum_bytes 0 (layout f (replicate 8 b' ')))))

length-seal_fields :
    (prefix name : List ℕ) (file_size : ℕ) (fields : Option Fields) {h : Header}
    → length prefix ≤ 155
    → length name ≤ 100
    → format_fields prefix name file_size ≡ fields
    → seal_fields fields ≡ formatted h
    → length h ≡ block_size
unfolding seal_fields
length-seal_fields prefix name file_size none lp ln p e = absurd (ground arith)
length-seal_fields prefix name file_size (some f) {h} lp ln p e =
    let sealed = length-seal f (λ chksum c. fields-Sized prefix name file_size chksum lp ln c p) in
    subst (λ b. length b ≡ block_size) (formatted-injective (seal f) h e) sealed

length-format_parts :
    (file_name : List ℕ) (file_size : ℕ) (parts : Option (List ℕ × List ℕ)) {h : Header}
    → split_name file_name ≡ parts
    → format_parts parts file_size ≡ formatted h
    → length h ≡ block_size
unfolding format_parts
length-format_parts file_name file_size none p e = absurd (ground arith)
length-format_parts file_name file_size (some (prefix, name)) p e =
    let (lp, ln) = split_name-fits file_name prefix name p in
    length-seal_fields prefix name file_size (format_fields prefix name file_size) lp ln refl e

-- A header that is formatted is a whole block, whatever the name and the size are.
pub length-format_header :
    (file_name : List ℕ) (file_size : ℕ) {h : Header}
    → format_header file_name file_size ≡ formatted h
    → length h ≡ block_size
unfolding format_header
length-format_header file_name file_size e =
    length-format_parts file_name file_size (split_name file_name) refl e
