-- ===== src/Ztar/Unpack/Process.antt =====
-- `ztar_unpack_process` of lib/edgehog_device/ztar/unpack.c: the loop over one chunk of the stream.
use edgehog_zephyr_device.Prelude.{
  ℕ, zero, suc, ◌+◌, ◌*◌, List, [], ◌∷◌, Option, none, some, drop, if◌then◌else◌, length,
}
use edgehog_zephyr_device.Ztar.Core.{ZtarResult, ok, is_ok, invalid_args}
use edgehog_zephyr_device.Ztar.Unpack.State.{
  UnpackState, header, data_block, padding, trailer, Unpack, Step,
}
use edgehog_zephyr_device.Ztar.Unpack.Steps.{
  stream_process_header, stream_process_data, stream_process_padding, stream_process_trailer,
}

-- At most three rounds for each byte, and three more.
abbrev pub process_fuel : List ℕ → ℕ
process_fuel bytes = 3 * length bytes + 3

module _ {U : Type 0} where
  -- The switch of `ztar_unpack_process`.
  unfoldable pub dispatch : UnpackState → Unpack U → List ℕ → Step U
  dispatch header s bytes = stream_process_header s bytes
  dispatch data_block s bytes = stream_process_data s bytes
  dispatch padding s bytes = stream_process_padding s bytes
  dispatch trailer s bytes = stream_process_trailer s bytes

  -- The loop of `ztar_unpack_process`, on the bytes from `offset` on; `none` if the fuel runs out.
  unfoldable pub process_loop : ℕ → Unpack U → List ℕ → Option (ZtarResult × Unpack U)
  process_loop fuel s [] = some (ok, s)
  process_loop zero s (b ∷ bs) = none
  process_loop (suc fuel) s (b ∷ bs) =
      let (zres, s', bytes_consumed) = dispatch s.state s (b ∷ bs) in
      let rest = process_loop fuel s' (drop bytes_consumed (b ∷ bs)) in
      if is_ok zres then rest else some (zres, s')

  -- `ztar_unpack_process` on a stream that is not null; `none` stands for null data.
  unfoldable pub process : Unpack U → Option (List ℕ) → Option (ZtarResult × Unpack U)
  process s none = some (invalid_args, s)
  process s (some bytes) = process_loop (process_fuel bytes) s bytes
