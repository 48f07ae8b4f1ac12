-- ===== src/Ztar/Pack/Checksum.antt =====
-- The checksum of a header: what lib/edgehog_device/ztar/pack.c stores is what
-- lib/edgehog_device/ztar/unpack.c expects.
use edgehog_zephyr_device.Prelude.{
  ℕ, ◌+◌, ◌-◌, ◌*◌, ◌%◌, ◌^◌, ◌≤◌, ◌<◌, ◌≡◌, ap, ◌∙◌, List, [], ◌∷◌, ◌++◌, arith, length, set,
  take-all, set-append,
}
use edgehog_zephyr_device.Ztar.Octal.{print_octal}
use edgehog_zephyr_device.Ztar.Octal.RoundTrip.{Printed, print_octal-Printed}
use edgehog_zephyr_device.Ztar.Unpack.Validate.{sum_bytes, replace_chksum}
use edgehog_zephyr_device.Ztar.Pack.Format.{format_chksum}

-- The plain sum of some bytes.
abbrev pub total : List ℕ → ℕ
total [] = 0
total (b ∷ bs) = b + total bs

abbrev pub IsBytes : List ℕ → Type 0
IsBytes [] = Unit {0}
IsBytes (b ∷ bs) = (b < 256) × IsBytes bs

pub total-append : (xs ys : List ℕ) → total (xs ++ ys) ≡ total xs + total ys
total-append [] ys = omega arith
total-append (x ∷ xs) ys = omega (arith, total-append xs ys)

pub total-le : (bs : List ℕ) → IsBytes bs → total bs ≤ 255 * length bs
total-le [] h = omega arith
total-le (b ∷ bs) h = omega (arith, total-le bs h.1)

pub IsBytes-append : (xs ys : List ℕ) → IsBytes xs → IsBytes ys → IsBytes (xs ++ ys)
IsBytes-append [] ys h k = k
IsBytes-append (x ∷ xs) ys h k = (h.0, IsBytes-append xs ys h.1 k)

-- The sum in `uint32_t` does not wrap for a block.
pub sum_bytes-total :
    (acc : ℕ) (bs : List ℕ) → acc + total bs < 2 ^ 32 → sum_bytes acc bs ≡ acc + total bs
unfolding sum_bytes
sum_bytes-total acc [] h = omega arith
sum_bytes-total acc (b ∷ bs) h =
    let no_wrap : (acc + b) % 2 ^ 32 ≡ acc + b = omega arith in
    rw no_wrap (omega (arith, sum_bytes-total (acc + b) bs))

-- Taking the bytes of a field out of a sum and putting spaces in.
pub replace_chksum_lem :
    (acc : ℕ) (bs : List ℕ)
    → total bs ≤ acc
    → acc + 32 * length bs < 2 ^ 32
    → replace_chksum acc bs ≡ acc + 32 * length bs - total bs
unfolding replace_chksum
replace_chksum_lem acc [] h k = omega arith
replace_chksum_lem acc (b ∷ bs) h k =
    let step : ((acc + 2 ^ 32 - b % 2 ^ 32) % 2 ^ 32 + b' ') % 2 ^ 32 ≡ acc + 32 - b =
      omega arith in
    rw step (omega (arith, replace_chksum_lem (acc + 32 - b) bs))

-- The stored field: six octal digits, a NUL and a space.
pub format_chksum_lem :
    (v : ℕ)
    → v < 8 ^ 6
    → (format_chksum v ≡ print_octal 6 v ++ 0 ∷ b' ' ∷ []) × Printed 6 v (print_octal 6 v)
unfolding format_chksum
format_chksum_lem v h =
    let text = print_octal 6 v in
    let p : Printed 6 v text = print_octal-Printed 5 v h (omega arith) in
    let spaces : 7 - length text ≡ 1 = omega (arith, p.long) in
    (
      rw (take-all 7 text (omega (arith, p.long)), spaces)
          (ap (λ field. set field 7 b' ') (set-append 6 0 text (0 ∷ b' ' ∷ []) 0 p.long)
            ∙ set-append 6 1 text (0 ∷ b' ' ∷ []) b' ' p.long),
      p,
    )
