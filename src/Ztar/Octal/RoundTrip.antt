-- ===== src/Ztar/Octal/RoundTrip.antt =====
-- Printing a number in octal and reading it back: the text fields that
-- lib/edgehog_device/ztar/pack.c writes are the ones that lib/edgehog_device/ztar/unpack.c reads.
use edgehog_zephyr_device.Prelude.{
  ℕ, zero, suc, ◌+◌, ◌-◌, ◌*◌, ◌/◌, ◌%◌, ◌^◌, ◌≤◌, ◌<◌, ◌≡◌, refl, ap, ◌∙◌, true, List, [], ◌∷◌,
  ◌++◌, some, arith, ltb, length, length-append, length-replicate, replicate, all, min, Bool-cases,
  inl, inr, lt→ltb, ltb→lt,
}
use native.Mathlib.Nat.{pow-suc}
use edgehog_zephyr_device.Ztar.Octal.{
  is_octal, octal_value, octal_digits, print_octal, strto_octal, signed_octal, unsigned_octal,
  skip_space,
}

octal_value-append :
    (acc : ℕ) (xs ys : List ℕ)
    → all is_octal xs ≡ true
    → octal_value acc (xs ++ ys) ≡ octal_value (octal_value acc xs) ys
unfolding octal_value
octal_value-append acc [] ys h = refl
octal_value-append acc (x ∷ xs) ys h =
    ground (arith, octal_value-append (acc * 8 + (x - b'0')) xs ys)

all_append :
    (xs ys : List ℕ)
    → all is_octal xs ≡ true
    → all is_octal ys ≡ true
    → all is_octal (xs ++ ys) ≡ true
all_append [] ys h k = k
all_append (x ∷ xs) ys h k = ground (arith, all_append xs ys)

all-replicate : (n : ℕ) → all is_octal (replicate n b'0') ≡ true
all-replicate zero = refl
all-replicate (suc n) = all-replicate n

octal_value_zeros : (n : ℕ) → octal_value 0 (replicate n b'0') ≡ 0
unfolding octal_value
octal_value_zeros zero = refl
octal_value_zeros (suc n) = octal_value_zeros n

-- Digits of a number below 8 ^ (suc fuel).
record Digits (width v : ℕ) (ds : List ℕ) : Type 0 where
  octal : all is_octal ds ≡ true
  value : octal_value 0 ds ≡ v
  short : length ds ≤ width
  some_digit : 0 < length ds

one_digit : (w v : ℕ) → v < 8 → Digits (suc w) v ((b'0' + v) ∷ [])
unfolding octal_value
one_digit w v h = ground arith

-- One more digit at the end of the digits of the quotient.
snoc_digit :
    (w v : ℕ) (ds : List ℕ) → Digits w (v / 8) ds → Digits (suc w) v (ds ++ (b'0' + v % 8) ∷ [])
unfolding octal_value
snoc_digit w v ds d = ground (
  arith,
  octal_value-append 0 ds ((b'0' + v % 8) ∷ []) d.octal,
  all_append ds ((b'0' + v % 8) ∷ []) d.octal,
  length-append ds ((b'0' + v % 8) ∷ []),
)

octal_digits-Digits :
    (fuel w v : ℕ) → v < 8 ^ suc w → w ≤ fuel → Digits (suc w) v (octal_digits fuel v)
unfolding octal_digits
octal_digits-Digits zero zero v h k = one_digit 0 v (rw pow-suc at h)
octal_digits-Digits zero (suc w) v h k = absurd (omega arith)
octal_digits-Digits (suc fuel) zero v h k =
    let lt : v < 8 = rw pow-suc at h in rw (lt→ltb v 8 lt) (one_digit 0 v lt)
octal_digits-Digits (suc fuel) (suc w) v h k = elim (Bool-cases (ltb v 8)) [
  | inl e ↦ rw e (one_digit (suc w) v (ltb→lt v 8 e))
  | inr e ↦ rw e (
      snoc_digit (suc w) v (octal_digits fuel (v / 8))
        (octal_digits-Digits fuel w (v / 8) (omega (arith, pow-suc 8 (suc w))) (omega arith)))
]

-- `%0*o` of a number that fits: exactly `width` octal digits, of that value.
pub record Printed (width v : ℕ) (text : List ℕ) : Type 0 where
  pub octal : all is_octal text ≡ true
  pub value : octal_value 0 text ≡ v
  pub long : length text ≡ width

pub print_octal-Printed :
    (w v : ℕ) → v < 8 ^ suc w → w ≤ 21 → Printed (suc w) v (print_octal (suc w) v)
unfolding print_octal
print_octal-Printed w v h k =
    let ds = octal_digits 21 v in
    let d = octal_digits-Digits 21 w v h k in
    let zeros = replicate (suc w - length ds) b'0' in
    record {
      octal = all_append zeros ds (all-replicate (suc w - length ds)) d.octal;
      value =
          octal_value-append 0 zeros ds (all-replicate (suc w - length ds))
          ∙ rw (octal_value_zeros (suc w - length ds)) d.value;
      long = omega (
        arith,
        length-append zeros ds,
        length-replicate {A = ℕ} (suc w - length ds) b'0',
        d.short,
      );
    }

octal_value_stop : (acc : ℕ) (rest : List ℕ) → octal_value acc (0 ∷ rest) ≡ acc
unfolding octal_value
octal_value_stop acc rest = refl

-- The text starts with a digit, so `strtoul` skips nothing and reads it up to the NUL.
strto_octal-digit :
    (modulus c : ℕ) (cs : List ℕ)
    → is_octal c ≡ true
    → strto_octal modulus (c ∷ cs) ≡ some (min (octal_value 0 (c ∷ cs)) (modulus - 1))
unfolding strto_octal skip_space signed_octal unsigned_octal
strto_octal-digit modulus c cs h = ground arith

-- `strtoul` reads the number that `%0*o` printed, if the text ends with a NUL and the number fits.
pub strto_octal-Printed :
    (modulus w v : ℕ) (text rest : List ℕ)
    → Printed (suc w) v text
    → v < modulus
    → strto_octal modulus (text ++ 0 ∷ rest) ≡ some v
strto_octal-Printed modulus w v [] rest p h = absurd (omega (arith, p.long))
strto_octal-Printed modulus w v (c ∷ cs) rest p h =
    strto_octal-digit modulus c (cs ++ 0 ∷ rest) (ground (arith, p.octal))
    ∙ ap some (
        let e : octal_value 0 (c ∷ cs ++ 0 ∷ rest) ≡ v =
          octal_value-append 0 (c ∷ cs) (0 ∷ rest) p.octal
          ∙ octal_value_stop (octal_value 0 (c ∷ cs)) rest
          ∙ p.value in
        rw e (omega arith))
