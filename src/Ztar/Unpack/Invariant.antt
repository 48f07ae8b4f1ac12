-- ===== src/Ztar/Unpack/Invariant.antt =====
-- The well-formedness of the parser of lib/edgehog_device/ztar/unpack.c: which counter is in range
-- in which state. Every handler keeps it, also where it reports an error.
use edgehog_zephyr_device.Prelude.{
  ℕ, zero, suc, ◌+◌, ◌≤◌, ◌<◌, ◌≡◌, refl, subst, List, [], ◌∷◌, ◌++◌, Option, none, some, arith,
  take, drop, length, length-append, length-take, length-drop, Bool-cases, Option-cases, inl, inr,
}
use edgehog_zephyr_device.Ztar.Core.{
  ZtarResult, ok, is_ok, block_size, trailer_size, sub_size, min_size, required_file_padding,
  required_file_padding_lem,
}
use edgehog_zephyr_device.Ztar.Header.{write_at}
use edgehog_zephyr_device.Ztar.Unpack.State.{
  UnpackState, header, data_block, padding, trailer, Unpack, UnpackCallbacks, get_file_size, init,
}
use edgehog_zephyr_device.Ztar.Unpack.Steps.{
  stream_process_header, stream_process_data, stream_process_padding, stream_process_trailer,
  finish_header, fill_header, process_data, process_padding,
}
use edgehog_zephyr_device.Ztar.Unpack.Process.{dispatch, process_loop, process, process_fuel}
use edgehog_zephyr_device.Ztar.Unpack.Progress.{get_file_size-lt}

abbrev pub InFile : Option ℕ → ℕ → Type 0
InFile none processed = Unit {0}
InFile (some file_size) processed = processed ≤ file_size

abbrev pub InPadding : Option ℕ → ℕ → Type 0
InPadding none processed = Unit {0}
InPadding (some file_size) processed = processed < required_file_padding file_size

length-write_at :
    (offset n : ℕ) (bytes block : List ℕ)
    → length block ≡ block_size
    → n ≤ length bytes
    → offset + n ≤ block_size
    → length (write_at offset (take n bytes) block) ≡ block_size
length-write_at offset n bytes block h k m = ground (
  arith,
  length-append (take offset block) (take n bytes ++ drop (offset + length (take n bytes)) block),
  length-append (take n bytes) (drop (offset + length (take n bytes)) block),
  length-take offset block,
  length-take n bytes,
  length-drop (offset + length (take n bytes)) block,
)

module _ {U : Type 0} where
  abbrev pub CountersIn : UnpackState → Unpack U → Type 0
  CountersIn header s = s.bytes_processed_in_header ≤ block_size
  CountersIn data_block s = InFile (get_file_size s.current_header) s.bytes_processed_in_file
  CountersIn padding s = InPadding (get_file_size s.current_header) s.bytes_processed_in_padding
  CountersIn trailer s =
      (block_size ≤ s.bytes_processed_in_trailer) × (s.bytes_processed_in_trailer ≤ trailer_size)

  pub record IsValid (s : Unpack U) : Type 0 where
    pub whole : length s.current_header ≡ block_size
    pub counters : CountersIn s.state s

  finish_header-IsValid :
      (s : Unpack U)
      → s.state ≡ header
      → length s.current_header ≡ block_size
      → s.bytes_processed_in_header ≡ block_size
      → IsValid (finish_header s).1
  unfolding finish_header
  finish_header-IsValid s e h k = ground arith

  fill_header_lem :
      (n : ℕ) (s : Unpack U) (bytes : List ℕ)
      → s.state ≡ header
      → IsValid s
      → n ≤ length bytes
      → s.bytes_processed_in_header + n ≤ block_size
      → let s' = fill_header n s bytes in
        (s'.state ≡ header)
        × (s'.bytes_processed_in_header ≡ s.bytes_processed_in_header + n)
        × (length s'.current_header ≡ block_size)
  unfolding fill_header
  fill_header_lem n s bytes e v h k = (
    e,
    omega arith,
    length-write_at s.bytes_processed_in_header n bytes s.current_header v.whole h k,
  )

  stream_process_header-IsValid :
      (s : Unpack U) (bytes : List ℕ)
      → s.state ≡ header
      → IsValid s
      → IsValid (stream_process_header s bytes).1
  unfolding stream_process_header
  stream_process_header-IsValid s bytes e v =
      let n = min_size (length bytes) (sub_size block_size s.bytes_processed_in_header) in
      let (same, counted, whole) = fill_header_lem n s bytes e v (ground arith) (ground arith) in
      ground (arith, finish_header-IsValid (fill_header n s bytes) same whole)

  process_data-IsValid :
      (n : ℕ) (s : Unpack U) (bytes : List ℕ)
      → s.state ≡ data_block
      → get_file_size s.current_header ≡ some n
      → IsValid s
      → IsValid (process_data n s bytes).1
  unfolding process_data
  process_data-IsValid n s bytes e p v =
      ground (arith, get_file_size-lt s.current_header p, required_file_padding_lem n)

  process_padding-IsValid :
      (n : ℕ) (s : Unpack U) (bytes : List ℕ)
      → s.state ≡ padding
      → get_file_size s.current_header ≡ some n
      → IsValid s
      → IsValid (process_padding n s bytes).1
  unfolding process_padding
  process_padding-IsValid n s bytes e p v = ground (arith, required_file_padding_lem n)

  stream_process_trailer-IsValid :
      (s : Unpack U) (bytes : List ℕ)
      → s.state ≡ trailer
      → IsValid s
      → IsValid (stream_process_trailer s bytes).1
  unfolding stream_process_trailer
  stream_process_trailer-IsValid s bytes e v = ground arith

  stream_process_data-IsValid :
      (s : Unpack U) (bytes : List ℕ)
      → s.state ≡ data_block
      → IsValid s
      → IsValid (stream_process_data s bytes).1
  unfolding stream_process_data
  stream_process_data-IsValid s bytes e v = elim (Option-cases (get_file_size s.current_header)) [
    | inl p ↦ rw (p, stream_process_data) v
    | inr (n, p) ↦ rw (p, stream_process_data) (process_data-IsValid n s bytes e p v)
  ]

  stream_process_padding-IsValid :
      (s : Unpack U) (bytes : List ℕ)
      → s.state ≡ padding
      → IsValid s
      → IsValid (stream_process_padding s bytes).1
  unfolding stream_process_padding
  stream_process_padding-IsValid s bytes e v =
      elim (Option-cases (get_file_size s.current_header)) [
        | inl p ↦ rw (p, stream_process_padding) v
        | inr (n, p) ↦ rw (p, stream_process_padding) (process_padding-IsValid n s bytes e p v)
      ]

  dispatch-IsValid :
      (st : UnpackState) (s : Unpack U) (bytes : List ℕ)
      → s.state ≡ st
      → IsValid s
      → IsValid (dispatch st s bytes).1
  unfolding dispatch
  dispatch-IsValid header = stream_process_header-IsValid
  dispatch-IsValid data_block = stream_process_data-IsValid
  dispatch-IsValid padding = stream_process_padding-IsValid
  dispatch-IsValid trailer = stream_process_trailer-IsValid

  process_loop-IsValid :
      (fuel : ℕ) (s : Unpack U) (bytes : List ℕ) {z : ZtarResult} {t : Unpack U}
      → IsValid s
      → process_loop fuel s bytes ≡ some (z, t)
      → IsValid t
  unfolding process_loop
  process_loop-IsValid fuel s [] v e = subst IsValid (cc) v
  process_loop-IsValid zero s (b ∷ bs) v e = cc
  process_loop-IsValid (suc fuel) s (b ∷ bs) {z} {t} v e =
      let (zres, s', n) = dispatch s.state s (b ∷ bs) in
      let v' = dispatch-IsValid s.state s (b ∷ bs) refl v in
      elim (Bool-cases (is_ok zres)) [
        | inl p ↦ process_loop-IsValid fuel s' (drop n (b ∷ bs)) v' (rw p at e)
        | inr p ↦ let e' : some (zres, s') ≡ some (z, t) = rw p at e in subst IsValid (cc) v'
      ]

  -- Processing a chunk keeps a parser well formed, whatever the chunk holds and whatever result is
  -- reported: the header is 512 bytes, and no counter is past the end of what it counts.
  pub process-IsValid :
      (s : Unpack U) (bytes : Option (List ℕ)) {z : ZtarResult} {t : Unpack U}
      → IsValid s
      → process s bytes ≡ some (z, t)
      → IsValid t
  unfolding process
  process-IsValid s none v e = subst IsValid (cc) v
  process-IsValid s (some bytes) v e = process_loop-IsValid (process_fuel bytes) s bytes v e

  -- A parser whose set-up succeeds is well formed.
  pub init-IsValid :
      (s : Unpack U) (callbacks : UnpackCallbacks U) (u : U) {t : Unpack U}
      → init (some s) callbacks u ≡ (ok, some t)
      → IsValid t
  unfolding init
  init-IsValid s callbacks u e = ground arith
