-- ===== src/Ztar/Octal.antt =====
-- Octal text as the C library reads and writes it: `strtoul` and `strtoull` in base 8, used by
-- lib/edgehog_device/ztar/unpack.c, and the conversions `%0*o` and `%06o` of `snprintf`, used by
-- lib/edgehog_device/ztar/pack.c.
pub mod RoundTrip
use edgehog_zephyr_device.Prelude.{
  ℕ, zero, suc, ◌+◌, ◌-◌, ◌*◌, ◌/◌, ◌%◌, Bool, ◌&&◌, ◌||◌, List, [], ◌∷◌, ◌++◌, Option, none, some,
  ltb, leb, ◌==◌, if◌then◌else◌, length, replicate, min,
}
use mathlib.Core.Option

abbrev pub is_octal : ℕ → Bool
is_octal c = leb b'0' c && leb c b'7'

-- `isspace` in the C locale.
abbrev pub is_space : ℕ → Bool
is_space c = c == 32 || (leb 9 c && leb c 13)

unfoldable pub skip_space : List ℕ → List ℕ
skip_space [] = []
skip_space (c ∷ cs) = if is_space c then skip_space cs else c ∷ cs

-- The digits up to the first byte that is none.
unfoldable pub octal_value : ℕ → List ℕ → ℕ
octal_value acc [] = acc
octal_value acc (c ∷ cs) = if is_octal c then octal_value (acc * 8 + (c - b'0')) cs else acc

-- No digit, no conversion. The result is clamped to the largest value of the type.
unfoldable pub unsigned_octal : ℕ → List ℕ → Option ℕ
unfolding octal_value
unsigned_octal modulus [] = none
unsigned_octal modulus (c ∷ cs) =
    if is_octal c then some (min (octal_value 0 (c ∷ cs)) (modulus - 1)) else none

-- A minus sign negates in the unsigned type.
unfoldable pub signed_octal : ℕ → List ℕ → Option ℕ
unfolding unsigned_octal
signed_octal modulus [] = none
signed_octal modulus (c ∷ cs) =
    if c == b'-'
    then Option.map (λ v. (modulus - v) % modulus) (unsigned_octal modulus cs)
    else if c == b'+'
    then unsigned_octal modulus cs
    else unsigned_octal modulus (c ∷ cs)

-- `strtoul(s, &end, 8)` into an unsigned type of the given modulus; `none` if it converts nothing.
unfoldable pub strto_octal : ℕ → List ℕ → Option ℕ
unfolding skip_space signed_octal
strto_octal modulus s = signed_octal modulus (skip_space s)

-- The digits of a number below 8 ^ (suc fuel), most significant first, no leading zeros.
unfoldable pub octal_digits : ℕ → ℕ → List ℕ
octal_digits zero v = (b'0' + v) ∷ []
octal_digits (suc fuel) v =
    let rest = octal_digits fuel (v / 8) in
    if ltb v 8 then (b'0' + v) ∷ [] else rest ++ (b'0' + v % 8) ∷ []

-- `%0*o`: at least `width` digits. Twenty-two digits are enough for 64 bits.
unfoldable pub print_octal : ℕ → ℕ → List ℕ
print_octal width v =
    let digits = octal_digits 21 v in replicate (width - length digits) b'0' ++ digits
