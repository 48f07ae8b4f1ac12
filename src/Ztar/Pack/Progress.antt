-- ===== src/Ztar/Pack/Progress.antt =====
-- The loop of `ztar_pack_read_stream` (lib/edgehog_device/ztar/pack.c) ends: a round writes a byte or
-- leaves a state for one of a lower rank.
use edgehog_zephyr_device.Prelude.{
  ℕ, zero, suc, ◌+◌, ◌-◌, ◌≤◌, ◌<◌, ◌≡◌, refl, sym, subst, Bool, true, false, not, ◌&&◌, List, [],
  ◌++◌, Option, some, arith, ltb, if◌then◌else◌, length, length-append, length-replicate,
}
use edgehog_zephyr_device.Ztar.Core.{
  is_ok, block_size, min_size, sub_size, trailer_size, required_file_padding,
}
use edgehog_zephyr_device.Ztar.Pack.Format.{
  Formatted, formatted, name_too_long, octal_too_long, format_header,
}
use edgehog_zephyr_device.Ztar.Pack.State.{
  PackState, next_file, header, data_block, padding, trailer, done, Pack,
}
use edgehog_zephyr_device.Ztar.Pack.Steps.{
  pack_handle_next_file, pack_handle_header, pack_handle_data, pack_handle_padding,
  pack_handle_trailer,
}
use edgehog_zephyr_device.Ztar.Pack.Stream.{dispatch, fill_loop, read_stream, is_done, is_header}
use edgehog_zephyr_device.Ztar.Pack.Steps.{Step}
use edgehog_zephyr_device.Ztar.Pack.Bounds.{length-format_header}
use edgehog_zephyr_device.Prelude.{◌*◌}
use edgehog_zephyr_device.Ztar.Core.{size_mod, required_file_padding_lem}

abbrev rank : PackState → ℕ
rank data_block = 4
rank padding = 3
rank next_file = 2
rank header = 1
rank trailer = 1
rank done = 0

rank-le : (st : PackState) → rank st ≤ 4
rank-le st = ground arith

-- A computation on fuel that has a result.
abbrev Returns : {A : Type 0} → Option A → Type 0
Returns {A = A} o = (r : A) × (o ≡ some r)

Returns-if :
    {A : Type 0} (b : Bool) (x y : Option A)
    → (b ≡ true → Returns x)
    → (b ≡ false → Returns y)
    → Returns (if b then x else y)
Returns-if true x y f g = f refl
Returns-if false x y f g = g refl

module _ {U : Type 0} where
  -- Sizes of files are values of `size_t`.
  pub record SizesFit (s : Pack U) : Type 0 where
    pub expected : s.expected_file_size < size_mod
    pub next :
        (name : List ℕ) (size : ℕ) (u : U) → (s.callbacks.get_next_file name size u).size < size_mod

  -- A step that succeeds gets the loop further.
  abbrev Further : PackState → Step U → Type 0
  Further st r = rank r.1.state < rank st + 5 * length r.2

  next_file-Further :
      (s : Pack U)
      → is_ok (pack_handle_next_file s).0 ≡ true
      → Further next_file (pack_handle_next_file s)
  unfolding pack_handle_next_file
  next_file-Further s = ground arith

  header-Further :
      (s : Pack U) (r : Formatted)
      → format_header s.current_file_name s.expected_file_size ≡ r
      → is_ok (pack_handle_header s).0 ≡ true
      → Further header (pack_handle_header s)
  unfolding pack_handle_header
  header-Further s name_too_long e k = absurd (ground (arith, rw (e, pack_handle_header) at k))
  header-Further s octal_too_long e k = absurd (ground (arith, rw (e, pack_handle_header) at k))
  header-Further s (formatted block) e k =
      let whole = length-format_header s.current_file_name s.expected_file_size e in
      rw (e, pack_handle_header) (ground (arith, whole))

  data-Further :
      (s : Pack U) (remaining : ℕ)
      → s.state ≡ data_block
      → 0 < remaining
      → s.expected_file_size < size_mod
      → is_ok (pack_handle_data s remaining).0 ≡ true
      → Further data_block (pack_handle_data s remaining)
  unfolding pack_handle_data
  data-Further s remaining p h x k = ground arith

  padding-Further :
      (s : Pack U) (remaining : ℕ)
      → s.state ≡ padding
      → 0 < remaining
      → Further padding (pack_handle_padding s remaining)
  unfolding pack_handle_padding
  padding-Further s remaining p h =
      let total_padding = required_file_padding s.expected_file_size in
      let n = min_size remaining (sub_size total_padding s.bytes_processed_in_padding) in
      ground (arith, length-replicate {A = ℕ} n 0, required_file_padding_lem s.expected_file_size)

  trailer-Further :
      (s : Pack U) (remaining : ℕ)
      → s.state ≡ trailer
      → 0 < remaining
      → Further trailer (pack_handle_trailer s remaining)
  unfolding pack_handle_trailer
  trailer-Further s remaining p h =
      let n = min_size remaining (sub_size trailer_size s.bytes_processed_in_trailer) in
      ground (arith, length-replicate {A = ℕ} n 0)

  dispatch-Further :
      (st : PackState) (s : Pack U) (remaining : ℕ)
      → s.state ≡ st
      → 0 < remaining
      → SizesFit s
      → is_ok (dispatch st s remaining).0 ≡ true
      → Further st (dispatch st s remaining)
  unfolding dispatch
  dispatch-Further next_file s remaining p h f k = next_file-Further s k
  dispatch-Further header s remaining p h f k =
      header-Further s (format_header s.current_file_name s.expected_file_size) refl k
  dispatch-Further data_block s remaining p h f k = data-Further s remaining p h f.expected k
  dispatch-Further padding s remaining p h f k = padding-Further s remaining p h
  dispatch-Further trailer s remaining p h f k = trailer-Further s remaining p h
  dispatch-Further done s remaining p h f k = absurd (ground arith)

  -- What a step keeps: the callbacks, and sizes that fit.
  Kept : Pack U → Step U → Type 0
  Kept s r = (r.1.callbacks ≡ s.callbacks) × (r.1.expected_file_size < size_mod)

  header-Kept :
      (s : Pack U) (r : Formatted)
      → s.expected_file_size < size_mod
      → format_header s.current_file_name s.expected_file_size ≡ r
      → Kept s (pack_handle_header s)
  unfolding pack_handle_header Kept
  header-Kept s name_too_long x e = rw (e, pack_handle_header) (refl, x)
  header-Kept s octal_too_long x e = rw (e, pack_handle_header) (refl, x)
  header-Kept s (formatted block) x e = rw (e, pack_handle_header) (ground arith)

  dispatch-Kept :
      (st : PackState) (s : Pack U) (remaining : ℕ) → SizesFit s → Kept s (dispatch st s remaining)
  unfolding dispatch Kept pack_handle_next_file pack_handle_data pack_handle_padding
      pack_handle_trailer
  dispatch-Kept next_file s remaining f =
      ground (arith, f.next s.current_file_name s.expected_file_size s.user_data)
  dispatch-Kept header s remaining f =
      header-Kept s (format_header s.current_file_name s.expected_file_size) f.expected refl
  dispatch-Kept data_block s remaining f = ground (arith, f.expected)
  dispatch-Kept padding s remaining f = ground (arith, f.expected)
  dispatch-Kept trailer s remaining f = ground (arith, f.expected)
  dispatch-Kept done s remaining f = (refl, f.expected)

  Kept-SizesFit : (s : Pack U) (r : Step U) → SizesFit s → Kept s r → SizesFit r.1
  unfolding Kept
  Kept-SizesFit s r f k = record {
    expected = k.1;
    next = λ name size u.
        subst (λ c. (c.get_next_file name size u).size < size_mod) (sym k.0) (f.next name size u);
  }

  fill_loop_total :
      (fuel : ℕ) (s : Pack U) (out_size : ℕ) (written : List ℕ)
      → SizesFit s
      → 5 * (out_size - length written) + rank s.state < fuel
      → (r : Step U) × (fill_loop fuel s out_size written ≡ some r)
  unfolding fill_loop
  fill_loop_total zero s out_size written f h = absurd (omega (arith, h))
  fill_loop_total (suc fuel) s out_size written f h =
      let remaining = out_size - length written in
      let step = dispatch s.state s remaining in
      let out : List ℕ = written ++ step.2 in
      Returns-if (not (ltb (length written) out_size && not (is_done s.state))) _ _ (λ p. (_, refl))
        (λ p.
          Returns-if (is_header s.state && ltb remaining block_size) _ _ (λ q. (_, refl))
            (λ q.
              Returns-if (is_ok step.0) _ _
                (λ v.
                  let some_left : 0 < remaining = ground arith in
                  let further = dispatch-Further s.state s remaining refl some_left f v in
                  let fits = Kept-SizesFit s step f (dispatch-Kept s.state s remaining f) in
                  fill_loop_total fuel step.1 out_size out fits (
                    omega (
                      arith,
                      length-append written step.2,
                      further,
                      h,
                      some_left,
                      rank-le step.1.state,
                    )))
                (λ v. (_, refl))))

  -- With sizes of files that `size_t` holds, `ztar_pack_read_stream` returns: five rounds for each
  -- byte of the output buffer, and five more, are enough.
  pub read_stream_total :
      (s : Pack U) (out_size : ℕ)
      → SizesFit s
      → (r : Step U) × (read_stream (5 * out_size + 5) s out_size ≡ some r)
  unfolding read_stream
  read_stream_total s out_size f =
      let fuel = 5 * out_size + 5 in
      let filled = fill_loop_total fuel s out_size [] f (omega (arith, rank-le s.state)) in
      Returns-if (not s.initialized) _ _ (λ p. (_, refl))
        (λ p. Returns-if (ltb out_size block_size) _ _ (λ q. (_, refl)) (λ q. filled))
