-- ===== src/Ztar/Pack/Stream.antt =====
-- `ztar_pack_read_stream` of lib/edgehog_device/ztar/pack.c: the loop that fills one output buffer.
use edgehog_zephyr_device.Prelude.{
  ℕ, zero, suc, ◌-◌, Bool, true, false, not, ◌&&◌, List, [], ◌++◌, Option, none, some, length, ltb,
  ◌==◌, if◌then◌else◌,
}
use edgehog_zephyr_device.Ztar.Core.{
  ok, is_ok, invalid_args, insufficient_buff, archive_exhausted, block_size,
}
use edgehog_zephyr_device.Ztar.Pack.State.{
  PackState, next_file, header, data_block, padding, trailer, done, Pack,
}
use edgehog_zephyr_device.Ztar.Pack.Steps.{
  Step, pack_handle_next_file, pack_handle_header, pack_handle_data, pack_handle_padding,
  pack_handle_trailer,
}

abbrev pub is_done : PackState → Bool
is_done done = true
is_done _ = false

abbrev pub is_header : PackState → Bool
is_header header = true
is_header _ = false

module _ {U : Type 0} where
  -- The switch of `ztar_pack_read_stream`.
  unfoldable pub dispatch : PackState → Pack U → ℕ → Step U
  dispatch next_file s remaining = pack_handle_next_file s
  dispatch header s remaining = pack_handle_header s
  dispatch data_block s remaining = pack_handle_data s remaining
  dispatch padding s remaining = pack_handle_padding s remaining
  dispatch trailer s remaining = pack_handle_trailer s remaining
  dispatch done s remaining = (archive_exhausted, s, [])

  -- The loop, with the bytes written so far; `none` if the fuel runs out.
  unfoldable pub fill_loop : ℕ → Pack U → ℕ → List ℕ → Option (Step U)
  fill_loop zero s out_size written = none
  fill_loop (suc fuel) s out_size written =
      let remaining_out = out_size - length written in
      let (res, s', step_written) = dispatch s.state s remaining_out in
      let rest = fill_loop fuel s' out_size (written ++ step_written) in
      if not (ltb (length written) out_size && not (is_done s.state))
      then some
          (if is_done s.state && length written == 0 then archive_exhausted else ok, s, written)
      else if is_header s.state && ltb remaining_out block_size
      then some (ok, s, written)
      else if is_ok res
      then rest
      else some (res, s', written)

  -- `ztar_pack_read_stream` on non-null pointers.
  unfoldable pub read_stream : ℕ → Pack U → ℕ → Option (Step U)
  read_stream fuel s out_size =
      if not s.initialized
      then some (invalid_args, s, [])
      else if ltb out_size block_size
      then some (insufficient_buff, s, [])
      else fill_loop fuel s out_size []
