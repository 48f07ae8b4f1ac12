-- ===== src/Ztar/Pack/Seal.antt =====
-- The checksum that lib/edgehog_device/ztar/pack.c writes into a header makes the checks of
-- lib/edgehog_device/ztar/unpack.c pass.
use edgehog_zephyr_device.Prelude.{
  ℕ, ◌^◌, ◌<◌, ◌≡◌, refl, ap, sym, ◌∙◌, List, [], ◌∷◌, ◌++◌, arith, length, length-append, bytes_eq,
  if◌then◌else◌,
}
use edgehog_zephyr_device.Ztar.Core.{ok, invalid_magic, invalid_version}
use edgehog_zephyr_device.Ztar.Header.{Header, byte_at}
use edgehog_zephyr_device.Ztar.Header
use edgehog_zephyr_device.Ztar.Octal.{print_octal}
use edgehog_zephyr_device.Ztar.Octal.RoundTrip.{Printed, strto_octal-Printed}
use edgehog_zephyr_device.Ztar.Unpack.Validate.{
  ustar_magic, ustar_version, or_zero, validate_header, validate_magic, validate_version,
  validate_chksum, get_chksum, sum_bytes, replace_chksum,
}
use edgehog_zephyr_device.Ztar.Pack.Format.{Fields, layout, seal, format_chksum}
use edgehog_zephyr_device.Ztar.Pack.Layout.{
  Sized, magic-layout, version-layout, chksum-layout, length-layout,
}
use edgehog_zephyr_device.Ztar.Pack.Checksum.{
  total, IsBytes, total-le, IsBytes-append, sum_bytes-total, replace_chksum_lem, format_chksum_lem,
}
use edgehog_zephyr_device.Ztar.Pack.Sound.{
  IsSound, spaces, total-layout, layout-IsBytes, octal-IsBytes,
}

length-spaces : length spaces ≡ 8
length-spaces = refl

-- The sum over a header with spaces in the checksum field is what is stored, and stays small.
chksum_small : (f : Fields) → IsSound f → total (layout f spaces) < 8 ^ 6
chksum_small f g = omega (
  arith,
  total-le (layout f spaces) (layout-IsBytes f spaces g (omega arith)),
  length-layout f spaces (g.sized spaces refl),
)

pub record Sealed (f : Fields) : Type 0 where
  pub chksum : List ℕ
  pub written : seal f ≡ layout f chksum
  pub text : List ℕ
  pub ended : chksum ≡ text ++ 0 ∷ b' ' ∷ []
  pub printed : Printed 6 (total (layout f spaces)) text

pub seal-Sealed : (f : Fields) → IsSound f → Sealed f
unfolding seal
seal-Sealed f g =
    let small = chksum_small f g in
    let sum : sum_bytes 0 (layout f spaces) ≡ total (layout f spaces) =
      sum_bytes-total 0 (layout f spaces) (omega (arith, small)) ∙ omega arith in
    let (stored, printed) = format_chksum_lem (total (layout f spaces)) small in
    record {
      chksum = format_chksum (total (layout f spaces));
      written = rw sum;
      text = print_octal 6 (total (layout f spaces));
      ended = stored;
      printed = printed;
    }

validate_magic_ok : (h : Header) → Header.magic h ≡ ustar_magic → validate_magic h ≡ ok
unfolding validate_magic
validate_magic_ok h e = ap (λ m. if bytes_eq m ustar_magic then ok else invalid_magic) e

validate_version_ok : (h : Header) → Header.version h ≡ ustar_version → validate_version h ≡ ok
unfolding validate_version
validate_version_ok h e = ap (λ m. if bytes_eq m ustar_version then ok else invalid_version) e

validate_chksum_ok :
    (h : Header)
    → replace_chksum (sum_bytes 0 h) (Header.chksum h) ≡ get_chksum h
    → validate_chksum h ≡ ok
unfolding validate_chksum
validate_chksum_ok h e = ground arith

module _ (f : Fields) (g : IsSound f) (w : Sealed f) where
  length-chksum : length w.chksum ≡ 8
  length-chksum = rw w.ended (omega (arith, length-append w.text (0 ∷ b' ' ∷ []), w.printed.long))

  pub Sized-chksum : Sized f w.chksum
  Sized-chksum = g.sized w.chksum length-chksum

  chksum-IsBytes : IsBytes w.chksum
  chksum-IsBytes =
      rw w.ended
        (IsBytes-append w.text (0 ∷ b' ' ∷ []) (octal-IsBytes w.text w.printed.octal) (omega arith))

  chksum_read : get_chksum (layout f w.chksum) ≡ total (layout f spaces)
  unfolding get_chksum or_zero
  chksum_read =
      let small = chksum_small f g in
      let field = chksum-layout f w.chksum Sized-chksum in
      let read =
        strto_octal-Printed (2 ^ 32) 5 (total (layout f spaces)) w.text (b' ' ∷ []) w.printed
          (omega (arith, small)) in
      rw (get_chksum, field, w.ended, read) (omega (arith, small))

  chksum_replaced :
      replace_chksum (sum_bytes 0 (layout f w.chksum)) (Header.chksum (layout f w.chksum))
      ≡ total (layout f spaces)
  chksum_replaced =
      let small = chksum_small f g in
      let (split, part) = total-layout f w.chksum in
      let few = total-le w.chksum chksum-IsBytes in
      let sum : sum_bytes 0 (layout f w.chksum) ≡ total (layout f w.chksum) =
        sum_bytes-total 0 (layout f w.chksum) (omega (arith, small, split, few, length-chksum))
        ∙ omega arith in
      rw (sum, chksum-layout f w.chksum Sized-chksum)
        (omega (
          arith,
          replace_chksum_lem (total (layout f w.chksum)) w.chksum part
              (omega (arith, small, split, few, length-chksum)),
          split,
          length-chksum,
        ))

  pub validate_header-layout : validate_header (layout f w.chksum) ≡ ok
  unfolding validate_header
  validate_header-layout = rw (
    validate_magic_ok (layout f w.chksum) (magic-layout f w.chksum Sized-chksum),
    validate_version_ok (layout f w.chksum) (version-layout f w.chksum Sized-chksum),
    validate_chksum_ok (layout f w.chksum) (chksum_replaced ∙ sym chksum_read),
  )
