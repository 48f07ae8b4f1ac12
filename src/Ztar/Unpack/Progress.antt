-- ===== src/Ztar/Unpack/Progress.antt =====
-- The loop of `ztar_unpack_process` in lib/edgehog_device/ztar/unpack.c ends: every round consumes
-- a byte, but for the one that closes a file with nothing left to read.
use edgehog_zephyr_device.Prelude.{
  ℕ, zero, suc, ◌+◌, ◌*◌, ◌≤◌, ◌<◌, ◌≡◌, refl, true, List, [], ◌∷◌, Option, some, arith, drop,
  length, length-drop, ◌==◌, if◌then◌else◌, Bool-cases, Option-cases, inl, inr, none,
}
use edgehog_zephyr_device.Ztar.Header.{Header}
use edgehog_zephyr_device.Ztar.Core.{
  ZtarResult, ok, is_ok, invalid_args, size_mod, min_size, add_size, sub_size, block_size,
  required_file_padding_lem,
}
use edgehog_zephyr_device.Ztar.Unpack.State.{
  header, data_block, padding, trailer, UnpackState, Unpack, get_file_size,
}
use edgehog_zephyr_device.Ztar.Unpack.Steps.{
  stream_process_header, stream_process_data, stream_process_padding, stream_process_trailer,
  finish_header, fill_header, process_data, process_padding,
}
use edgehog_zephyr_device.Ztar.Unpack.Process.{dispatch, process_loop, process, process_fuel}

-- The rounds that may still come without consuming a byte: a header that is complete but was not
-- acted on, the end of a file, the end of its padding.
abbrev owed_at : UnpackState → ℕ → ℕ
owed_at header needed = if needed == 0 then 3 else 0
owed_at data_block needed = 2
owed_at padding needed = 1
owed_at trailer needed = 0

-- The size is a `size_t`.
pub get_file_size-lt : (h : Header) {n : ℕ} → get_file_size h ≡ some n → n < size_mod
unfolding get_file_size
get_file_size-lt h e = ground arith

module _ {U : Type 0} where
  abbrev owed : Unpack U → ℕ
  owed s = owed_at s.state (sub_size block_size s.bytes_processed_in_header)

  record Progress (s : Unpack U) (bytes : List ℕ) (r : ZtarResult × Unpack U × ℕ) : Type 0 where
    advances : is_ok r.0 ≡ true → owed r.1 + 1 ≤ owed s + 3 * r.2
    in_range : r.2 ≤ length bytes

  finish_header_state :
      (s : Unpack U) → is_ok (finish_header s).0 ≡ true → owed (finish_header s).1 ≤ 2
  unfolding finish_header
  finish_header_state s e = ground arith

  fill_header_lem :
      (n : ℕ) (s : Unpack U) (bytes : List ℕ)
      → ((fill_header n s bytes).state ≡ s.state)
        × ((fill_header n s bytes).bytes_processed_in_header
            ≡ add_size s.bytes_processed_in_header n)
  unfolding fill_header
  fill_header_lem n s bytes = (refl, refl)

  stream_process_header-Progress :
      (s : Unpack U) (b : ℕ) (bs : List ℕ)
      → s.state ≡ header
      → Progress s (b ∷ bs) (stream_process_header s (b ∷ bs))
  unfolding stream_process_header
  stream_process_header-Progress s b bs e =
      let n = min_size (length (b ∷ bs)) (sub_size block_size s.bytes_processed_in_header) in
      ground (arith, fill_header_lem n s (b ∷ bs), finish_header_state (fill_header n s (b ∷ bs)))

  process_data-Progress :
      (file_size : ℕ) (s : Unpack U) (b : ℕ) (bs : List ℕ)
      → s.state ≡ data_block
      → file_size < size_mod
      → Progress s (b ∷ bs) (process_data file_size s (b ∷ bs))
  unfolding process_data
  process_data-Progress file_size s b bs e h = ground arith

  process_padding-Progress :
      (file_size : ℕ) (s : Unpack U) (b : ℕ) (bs : List ℕ)
      → s.state ≡ padding
      → Progress s (b ∷ bs) (process_padding file_size s (b ∷ bs))
  unfolding process_padding
  process_padding-Progress file_size s b bs e = ground (arith, required_file_padding_lem file_size)

  stream_process_trailer-Progress :
      (s : Unpack U) (b : ℕ) (bs : List ℕ)
      → s.state ≡ trailer
      → Progress s (b ∷ bs) (stream_process_trailer s (b ∷ bs))
  unfolding stream_process_trailer
  stream_process_trailer-Progress s b bs e = ground arith

  stream_process_data-Progress :
      (s : Unpack U) (b : ℕ) (bs : List ℕ)
      → s.state ≡ data_block
      → Progress s (b ∷ bs) (stream_process_data s (b ∷ bs))
  unfolding stream_process_data
  stream_process_data-Progress s b bs e = elim (Option-cases (get_file_size s.current_header)) [
    | inl p ↦ rw (p, stream_process_data) (ground arith)
    | inr (n, p) ↦
        rw (p, stream_process_data)
          (process_data-Progress n s b bs e (get_file_size-lt s.current_header p))
  ]

  stream_process_padding-Progress :
      (s : Unpack U) (b : ℕ) (bs : List ℕ)
      → s.state ≡ padding
      → Progress s (b ∷ bs) (stream_process_padding s (b ∷ bs))
  unfolding stream_process_padding
  stream_process_padding-Progress s b bs e = elim (Option-cases (get_file_size s.current_header)) [
    | inl p ↦ rw (p, stream_process_padding) (ground arith)
    | inr (n, p) ↦ rw (p, stream_process_padding) (process_padding-Progress n s b bs e)
  ]

  -- A round that succeeds consumes bytes of the chunk, or is one of the rounds that are owed.
  dispatch-Progress :
      (st : UnpackState) (s : Unpack U) (b : ℕ) (bs : List ℕ)
      → s.state ≡ st
      → Progress s (b ∷ bs) (dispatch st s (b ∷ bs))
  unfolding dispatch
  dispatch-Progress header = stream_process_header-Progress
  dispatch-Progress data_block = stream_process_data-Progress
  dispatch-Progress padding = stream_process_padding-Progress
  dispatch-Progress trailer = stream_process_trailer-Progress

  process_loop_total :
      (fuel : ℕ) (s : Unpack U) (bytes : List ℕ)
      → 3 * length bytes + owed s ≤ fuel
      → (r : ZtarResult × Unpack U) × (process_loop fuel s bytes ≡ some r)
  unfolding process_loop
  process_loop_total fuel s [] h = ((ok, s), refl)
  process_loop_total zero s (b ∷ bs) h = absurd (omega arith)
  process_loop_total (suc fuel) s (b ∷ bs) h =
      let (zres, s', n) = dispatch s.state s (b ∷ bs) in
      let p = dispatch-Progress s.state s b bs refl in
      elim (Bool-cases (is_ok zres)) [
        | inl e ↦ rw e (
            process_loop_total fuel s' (drop n (b ∷ bs))
              (omega (arith, p.advances e, p.in_range, length-drop n (b ∷ bs))))
        | inr e ↦ ((zres, s'), rw e)
      ]

  -- Whatever the state of the parser and the bytes of the chunk, `ztar_unpack_process` returns.
  pub process_total :
      (s : Unpack U) (bytes : Option (List ℕ))
      → (r : ZtarResult × Unpack U) × (process s bytes ≡ some r)
  unfolding process
  process_total s none = ((invalid_args, s), refl)
  process_total s (some bytes) = process_loop_total (process_fuel bytes) s bytes (ground arith)
