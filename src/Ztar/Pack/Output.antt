-- ===== src/Ztar/Pack/Output.antt =====
-- `ztar_pack_read_stream` of lib/edgehog_device/ztar/pack.c stays inside the buffer that it is given.
use edgehog_zephyr_device.Prelude.{
  ℕ, zero, suc, ◌-◌, ◌≤◌, ◌≡◌, refl, sym, subst, false, not, ◌&&◌, List, [], ◌++◌, some, arith, ltb,
  length, length-append, length-replicate, Bool-cases, inl, inr,
}
use edgehog_zephyr_device.Ztar.Core.{
  is_ok, block_size, min_size, sub_size, trailer_size, required_file_padding,
}
use edgehog_zephyr_device.Ztar.Pack.Format.{
  Formatted, formatted, name_too_long, octal_too_long, format_header,
}
use edgehog_zephyr_device.Ztar.Pack.State.{
  PackState, next_file, header, data_block, padding, trailer, done, Pack, PackCallbacks,
}
use edgehog_zephyr_device.Ztar.Pack.Steps.{
  pack_handle_next_file, pack_handle_header, pack_handle_data, pack_handle_padding,
  pack_handle_trailer,
}
use edgehog_zephyr_device.Ztar.Pack.Stream.{dispatch, fill_loop, read_stream, is_done, is_header}
use edgehog_zephyr_device.Ztar.Pack.Steps.{Step}
use edgehog_zephyr_device.Ztar.Pack.Bounds.{length-format_header}

module _ {U : Type 0} where
  -- `read_file_data` returns at most as many bytes as it is asked for.
  abbrev pub ReadsWithin : PackCallbacks U → Type 0
  ReadsWithin callbacks = (n : ℕ) (u : U) → length (callbacks.read_file_data n u).1 ≤ n

  -- What a step writes is within the bytes that remain, and the callbacks stay.
  abbrev Within : ℕ → Pack U → Step U → Type 0
  Within remaining s r = (length r.2 ≤ remaining) × (r.1.callbacks ≡ s.callbacks)

  next_file-Within : (s : Pack U) (remaining : ℕ) → Within remaining s (pack_handle_next_file s)
  unfolding pack_handle_next_file
  next_file-Within s remaining = ground arith

  header-Within :
      (s : Pack U) (remaining : ℕ) (r : Formatted)
      → ltb remaining block_size ≡ false
      → format_header s.current_file_name s.expected_file_size ≡ r
      → Within remaining s (pack_handle_header s)
  unfolding pack_handle_header
  header-Within s remaining name_too_long h e = rw (e, pack_handle_header) (omega arith, refl)
  header-Within s remaining octal_too_long h e = rw (e, pack_handle_header) (omega arith, refl)
  header-Within s remaining (formatted block) h e =
      let whole = length-format_header s.current_file_name s.expected_file_size e in
      rw (e, pack_handle_header) (ground (arith, whole))

  data-Within :
      (s : Pack U) (remaining : ℕ)
      → ReadsWithin s.callbacks
      → Within remaining s (pack_handle_data s remaining)
  unfolding pack_handle_data
  data-Within s remaining f =
      let n = min_size remaining (sub_size s.expected_file_size s.bytes_written_for_file) in
      ground (arith, f n s.user_data)

  padding-Within :
      (s : Pack U) (remaining : ℕ) → Within remaining s (pack_handle_padding s remaining)
  unfolding pack_handle_padding
  padding-Within s remaining =
      let total_padding = required_file_padding s.expected_file_size in
      let n = min_size remaining (sub_size total_padding s.bytes_processed_in_padding) in
      ground (arith, length-replicate {A = ℕ} n 0)

  trailer-Within :
      (s : Pack U) (remaining : ℕ) → Within remaining s (pack_handle_trailer s remaining)
  unfolding pack_handle_trailer
  trailer-Within s remaining =
      let n = min_size remaining (sub_size trailer_size s.bytes_processed_in_trailer) in
      ground (arith, length-replicate {A = ℕ} n 0)

  dispatch-Within :
      (st : PackState) (s : Pack U) (remaining : ℕ)
      → ReadsWithin s.callbacks
      → (is_header st && ltb remaining block_size) ≡ false
      → Within remaining s (dispatch st s remaining)
  unfolding dispatch
  dispatch-Within next_file s remaining f h = next_file-Within s remaining
  dispatch-Within header s remaining f h =
      header-Within s remaining (format_header s.current_file_name s.expected_file_size) h refl
  dispatch-Within data_block s remaining f h = data-Within s remaining f
  dispatch-Within padding s remaining f h = padding-Within s remaining
  dispatch-Within trailer s remaining f h = trailer-Within s remaining
  dispatch-Within done s remaining f h = (omega arith, refl)

  step-injective : (a b : Step U) → some a ≡ some b → a ≡ b
  step-injective a b e = cc

  fill_loop-bound :
      (fuel : ℕ) (s : Pack U) (out_size : ℕ) (written : List ℕ) {r : Step U}
      → ReadsWithin s.callbacks
      → length written ≤ out_size
      → fill_loop fuel s out_size written ≡ some r
      → length r.2 ≤ out_size
  unfolding fill_loop
  fill_loop-bound zero s out_size written f h e = absurd (ground arith)
  fill_loop-bound (suc fuel) s out_size written {r} f h e =
      let remaining = out_size - length written in
      let step = dispatch s.state s remaining in
      let out : List ℕ = written ++ step.2 in
      elim (Bool-cases (not (ltb (length written) out_size && not (is_done s.state)))) [
        | inl p ↦ ground (arith, e)
        | inr p ↦ elim (Bool-cases (is_header s.state && ltb remaining block_size)) [
          | inl q ↦ ground (arith, e)
          | inr q ↦
              let within = dispatch-Within s.state s remaining f q in
              let fits : length out ≤ out_size =
                omega (arith, length-append written step.2, within) in
              elim (Bool-cases (is_ok step.0)) [
                | inl v ↦
                    let e' : fill_loop fuel step.1 out_size out ≡ some r = rw (p, q, v) at e in
                    fill_loop-bound fuel step.1 out_size out (subst ReadsWithin (sym within.1) f)
                      fits e'
                | inr v ↦
                    let ended : some (step.0, step.1, written) ≡ some r = rw (p, q, v) at e in
                    subst (λ t. length t.2 ≤ out_size)
                      (step-injective (step.0, step.1, written) r ended) h
              ]
        ]
      ]

  -- Where `read_file_data` returns at most as many bytes as it is asked for, the bytes that
  -- `ztar_pack_read_stream` writes fit the output buffer, whatever it returns.
  pub read_stream-bound :
      (fuel : ℕ) (s : Pack U) (out_size : ℕ) {r : Step U}
      → ReadsWithin s.callbacks
      → read_stream fuel s out_size ≡ some r
      → length r.2 ≤ out_size
  unfolding read_stream
  read_stream-bound fuel s out_size {r} f e =
      ground (arith, fill_loop-bound fuel s out_size [] {r = r} f (omega arith))
