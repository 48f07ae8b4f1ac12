-- ===== src/Ztar/Pack/Layout.antt =====
-- Where the fields of a header that lib/edgehog_device/ztar/pack.c wrote stand: at the offsets of
-- `ztar_header_t` in lib/edgehog_device/include/ztar/core.h.
use edgehog_zephyr_device.Prelude.{
  ℕ, ◌+◌, ◌≡◌, refl, ap, ◌∙◌, List, arith, take, drop, length, replicate, length-append,
  length-drop, take-append, drop-append, drop_past,
}
use edgehog_zephyr_device.Ztar.Core.{block_size}
use edgehog_zephyr_device.Ztar.Header.{Header}
use edgehog_zephyr_device.Ztar.Header
use edgehog_zephyr_device.Ztar.Unpack.Validate.{ustar_magic, ustar_version}
use edgehog_zephyr_device.Ztar.Pack.Format.{Fields, layout, trailing_fields}

-- The fields have the lengths that the structure gives them.
pub record Sized (f : Fields) (chksum : List ℕ) : Type 0 where
  pub name : length f.name ≡ 100
  pub mode : length f.mode ≡ 8
  pub id : length f.id ≡ 8
  pub size : length f.size ≡ 12
  pub mtime : length f.mtime ≡ 12
  pub chk : length chksum ≡ 8
  pub prefix : length f.prefix ≡ 155

module _ (f : Fields) (chksum : List ℕ) (z : Sized f chksum) where
  pub name-layout : Header.name (layout f chksum) ≡ f.name
  unfolding layout
  name-layout = take-append 100 f.name _ z.name

  pub size-layout : Header.size (layout f chksum) ≡ f.size
  unfolding layout
  size-layout =
      ap (take 12) (
        drop_past 100 24 f.name _ z.name
          (drop_past 8 16 f.mode _ z.mode (drop_past 8 8 f.id _ z.id (drop-append 8 f.id _ z.id))))
      ∙ take-append 12 f.size _ z.size

  past_chksum :
      (m : ℕ) {zs : List ℕ}
      → drop m (trailing_fields f.prefix) ≡ zs
      → drop (100 + (8 + (8 + (8 + (12 + (12 + (8 + m))))))) (layout f chksum) ≡ zs
  unfolding layout
  past_chksum m e = drop_past 100 (8 + (8 + (8 + (12 + (12 + (8 + m)))))) f.name _ z.name (
      drop_past 8 (8 + (8 + (12 + (12 + (8 + m))))) f.mode _ z.mode (
        drop_past 8 (8 + (12 + (12 + (8 + m)))) f.id _ z.id (
          drop_past 8 (12 + (12 + (8 + m))) f.id _ z.id (
            drop_past 12 (12 + (8 + m)) f.size _ z.size
              (drop_past 12 (8 + m) f.mtime _ z.mtime (drop_past 8 m chksum _ z.chk e))))))

  pub typeflag-layout : Header.typeflag (layout f chksum) ≡ b'0'
  unfolding trailing_fields
  typeflag-layout = ap Header.head_byte (past_chksum 0 refl)

  pub magic-layout : Header.magic (layout f chksum) ≡ ustar_magic
  unfolding trailing_fields
  magic-layout = ap (take 6) (past_chksum 101 refl)

  pub version-layout : Header.version (layout f chksum) ≡ ustar_version
  unfolding trailing_fields
  version-layout = ap (take 2) (past_chksum 107 refl)

  pub prefix-layout : Header.prefix (layout f chksum) ≡ f.prefix
  unfolding trailing_fields
  prefix-layout = ap (take 155) (past_chksum 189 refl) ∙ take-append 155 f.prefix _ z.prefix

  pub chksum-layout : Header.chksum (layout f chksum) ≡ chksum
  unfolding layout
  chksum-layout =
      ap (take 8) (
        drop_past 100 48 f.name _ z.name (
          drop_past 8 40 f.mode _ z.mode (
            drop_past 8 32 f.id _ z.id (
              drop_past 8 24 f.id _ z.id
                (drop_past 12 12 f.size _ z.size (drop-append 12 f.mtime _ z.mtime))))))
      ∙ take-append 8 chksum _ z.chk

  pub length-layout : length (layout f chksum) ≡ block_size
  unfolding trailing_fields
  length-layout = omega (
    arith,
    ap length (past_chksum 189 refl),
    length-append f.prefix (replicate 12 0),
    length-drop 345 (layout f chksum),
    z.prefix,
  )
