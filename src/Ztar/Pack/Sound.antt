-- ===== src/Ztar/Pack/Sound.antt =====
-- The fields that lib/edgehog_device/ztar/pack.c writes into a header are bytes of the right number,
-- and how the sum of a header depends on its checksum field.
use edgehog_zephyr_device.Prelude.{
  ℕ, zero, suc, ◌+◌, ◌-◌, ◌^◌, ◌≤◌, ◌<◌, ◌≡◌, true, false, List, [], ◌∷◌, ◌++◌, some, arith, take,
  length, replicate, all, leb, ◌==◌,
}
use edgehog_zephyr_device.Ztar.Octal.{print_octal, is_octal}
use edgehog_zephyr_device.Ztar.Octal.RoundTrip.{Printed, print_octal-Printed}
use edgehog_zephyr_device.Ztar.Unpack.Validate.{ustar_magic, ustar_version}
use edgehog_zephyr_device.Ztar.Pack.Format.{
  Fields, layout, trailing_fields, pack_format_octal, copy_field,
}
use edgehog_zephyr_device.Ztar.Pack.Layout.{Sized}
use edgehog_zephyr_device.Ztar.Pack.Names.{IsText}
use edgehog_zephyr_device.Ztar.Pack.Checksum.{total, IsBytes, total-append, IsBytes-append}

pub IsText-IsBytes : (s : List ℕ) → IsText s → IsBytes s
IsText-IsBytes [] h = tt
IsText-IsBytes (c ∷ cs) h = (h.1, IsText-IsBytes cs h.2)

take-IsBytes : (n : ℕ) (s : List ℕ) → IsBytes s → IsBytes (take n s)
take-IsBytes zero s h = tt
take-IsBytes (suc n) [] h = tt
take-IsBytes (suc n) (c ∷ cs) h = (h.0, take-IsBytes n cs h.1)

zeros-IsBytes : (n : ℕ) → IsBytes (replicate n 0)
zeros-IsBytes zero = tt
zeros-IsBytes (suc n) = (omega arith, zeros-IsBytes n)

pub copy_field-IsBytes : (n : ℕ) (s : List ℕ) → IsText s → IsBytes (copy_field n s)
copy_field-IsBytes n s t =
    IsBytes-append (take n s) (replicate (n - length s) 0) (take-IsBytes n s (IsText-IsBytes s t))
      (zeros-IsBytes (n - length s))

pub octal-IsBytes : (s : List ℕ) → all is_octal s ≡ true → IsBytes s
octal-IsBytes [] h = tt
octal-IsBytes (c ∷ cs) h = (ground arith, octal-IsBytes cs (ground arith))

-- A number of at most `width` octal digits is formatted, and ends with a NUL.
pub octal_field :
    (w v : ℕ)
    → v < 8 ^ suc w
    → w ≤ 21
    → pack_format_octal v (suc (suc w)) ≡ some (print_octal (suc w) v ++ 0 ∷ [])
unfolding pack_format_octal
octal_field w v h k =
    let text = print_octal (suc w) v in
    let p : Printed (suc w) v text = print_octal-Printed w v h k in
    let width : suc (suc w) - 1 ≡ suc w = omega arith in
    let not_empty : (suc (suc w) == 0) ≡ false = ground arith in
    let fits : leb (suc (suc w)) (length text) ≡ false = ground (arith, p.long) in
    let one_nul : suc (suc w) - length text ≡ 1 = omega (arith, p.long) in
    rw (not_empty, width, fits, one_nul)

pub record IsSound (f : Fields) : Type 0 where
  pub sized : (chksum : List ℕ) → length chksum ≡ 8 → Sized f chksum
  pub name_bytes : IsBytes f.name
  pub mode_bytes : IsBytes f.mode
  pub id_bytes : IsBytes f.id
  pub size_bytes : IsBytes f.size
  pub mtime_bytes : IsBytes f.mtime
  pub prefix_bytes : IsBytes f.prefix

trailing_fields-IsBytes : (prefix : List ℕ) → IsBytes prefix → IsBytes (trailing_fields prefix)
unfolding trailing_fields
trailing_fields-IsBytes prefix b =
    let padding = replicate {A = ℕ} 12 0 in
    let from_prefix = prefix ++ padding in
    let from_uname = replicate {A = ℕ} 80 0 ++ from_prefix in
    let from_version = ustar_version ++ from_uname in
    let from_magic = ustar_magic ++ from_version in
    (
      omega arith,
      IsBytes-append (replicate 100 0) from_magic (zeros-IsBytes 100) (
          IsBytes-append ustar_magic from_version (omega arith) (
            IsBytes-append ustar_version from_uname (omega arith) (
              IsBytes-append (replicate 80 0) from_prefix (zeros-IsBytes 80)
                (IsBytes-append prefix padding b (zeros-IsBytes 12))))),
    )

pub layout-IsBytes :
    (f : Fields) (chksum : List ℕ) → IsSound f → IsBytes chksum → IsBytes (layout f chksum)
unfolding layout
layout-IsBytes f chksum g b =
    let from_chksum = chksum ++ trailing_fields f.prefix in
    let from_mtime = f.mtime ++ from_chksum in
    let from_size = f.size ++ from_mtime in
    let from_gid = f.id ++ from_size in
    let from_uid = f.id ++ from_gid in
    let from_mode = f.mode ++ from_uid in
    IsBytes-append f.name from_mode g.name_bytes (
      IsBytes-append f.mode from_uid g.mode_bytes (
        IsBytes-append f.id from_gid g.id_bytes (
          IsBytes-append f.id from_size g.id_bytes (
            IsBytes-append f.size from_mtime g.size_bytes (
              IsBytes-append f.mtime from_chksum g.mtime_bytes (
                IsBytes-append chksum (trailing_fields f.prefix) b
                  (trailing_fields-IsBytes f.prefix g.prefix_bytes)))))))

abbrev pub spaces : List ℕ
spaces = replicate 8 b' '

pub total-layout_parts :
    (f : Fields) (c : List ℕ)
    → total (layout f c)
      ≡ total f.name
        + (total f.mode
            + (total f.id
                + (total f.id
                    + (total f.size
                        + (total f.mtime + (total c + total (trailing_fields f.prefix)))))))
unfolding layout
total-layout_parts f c = simp total-append

-- The checksum field counts in the sum by its own bytes only.
pub total-layout :
    (f : Fields) (chksum : List ℕ)
    → (total (layout f chksum) + total spaces ≡ total (layout f spaces) + total chksum)
      × (total chksum ≤ total (layout f chksum))
total-layout f chksum = (
  omega (arith, total-layout_parts f chksum, total-layout_parts f spaces),
  omega (arith, total-layout_parts f chksum),
)
