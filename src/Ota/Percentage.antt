-- ===== src/Ota/Percentage.antt =====
-- The progress that lib/edgehog_device/ota.c publishes during a download.
use edgehog_zephyr_device.Prelude.{ℕ, ◌+◌, ◌-◌, ◌*◌, ◌/◌, ◌%◌, ◌^◌, ◌≤◌, ◌<◌, ◌≡◌, arith}
use edgehog_zephyr_device.Ota.Download.{rounded_percentage}
use native.Mathlib.Nat.{div-add-mod, mod-lt, mod-eq_of_lt, le_of_mul-le-mul_left, mul-le-mul_right}

-- The bounds of a quotient's multiple.
floor_bounds :
    (d r q m p : ℕ)
    → 0 < r
    → d ≤ r
    → r * q + m ≡ 100 * d
    → m < r
    → p ≤ q
    → q < p + 10
    → (p ≤ 100) × (p * r ≤ 100 * d) × (100 * d < (p + 10) * r)
floor_bounds d r q m p pos le e lt below above =
    let most : r * q ≤ r * 100 = omega arith in
    let q_le : q ≤ 100 = le_of_mul-le-mul_left most pos in
    let low : p * r ≤ q * r = mul-le-mul_right r below in
    let high : (q + 1) * r ≤ (p + 10) * r = mul-le-mul_right r (omega (arith, above)) in
    grind (arith, q_le, low, high)

-- Of a download that is no larger than its image, of 1 to 42,949,672 bytes, the progress is a
-- multiple of ten, at most 100, and the largest such one that the downloaded share reaches.
pub rounded_percentage-floor :
    (download_size response_size : ℕ)
    → 0 < response_size
    → download_size ≤ response_size
    → response_size ≤ 42949672
    → let p = rounded_percentage download_size response_size in
      (p % 10 ≡ 0)
      × (p ≤ 100)
      × (p * response_size ≤ 100 * download_size)
      × (100 * download_size < (p + 10) * response_size)
unfolding rounded_percentage
rounded_percentage-floor d r pos le small =
    let exact : (100 * d) % 2 ^ 32 ≡ 100 * d = mod-eq_of_lt (omega (arith, le, small)) in
    let q = (100 * d) / r in
    let (most, low, high) =
      floor_bounds d r q ((100 * d) % r) (q - q % 10) pos le (div-add-mod (100 * d) r)
        (mod-lt (100 * d) pos) (omega arith) (omega arith) in
    rw exact (omega arith, most, low, high)
