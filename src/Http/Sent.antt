-- ===== src/Http/Sent.antt =====
-- What an upload of lib/edgehog_device/http.c puts on the wire.
use edgehog_zephyr_device.Prelude.{
  ℕ, zero, suc, ◌+◌, ◌^◌, ◌<◌, ◌≡◌, ◌⊎◌, inl, inr, refl, sym, ap, ◌∙◌, true, false, List, [], ◌∷◌,
  ◌++◌, append_assoc, append-nil, length, take, drop, length-drop, take-append-drop, Option, none,
  some, ℤ, pos, negsuc, arith,
}
use edgehog_zephyr_device.Result.{EdgehogResult, ok, http_request_error}
use edgehog_zephyr_device.Http.Response.{Context}
use edgehog_zephyr_device.Http.Payload.{
  Transport, PayloadChunk, taken, refused, sent_of, add_int, send_loop, send_buffer_fully,
}

sent_of-cases :
    (z : ℤ) → (sent_of z ≡ refused) ⊎ ((k : ℕ) × (sent_of z ≡ taken (suc k)) × (z ≡ pos (suc k)))
unfolding sent_of
sent_of-cases (pos zero) = inl refl
sent_of-cases (pos (suc k)) = inr (k, refl, refl)
sent_of-cases (negsuc n) = inl refl

add_int_lem : (a b : ℕ) → a + b < 2 ^ 31 → add_int a b ≡ a + b
unfolding add_int
add_int_lem a b h = omega arith

module _ (T : Transport) where
  -- The count is complete and the buffer is on the wire, or the count is -1.
  abbrev Sends : List ℕ → ℕ → Transport.Sock T → Option (Option ℕ × Transport.Sock T) → Type 0
  Sends buf sent s o =
      (k : Option ℕ) × (s' : Transport.Sock T) × (o ≡ some (k, s'))
      × ((k ≡ none)
          ⊎ ((k ≡ some (sent + length buf)) × (Transport.wire T s' ≡ Transport.wire T s ++ buf)))

  send_loop-Sends :
      (n : ℕ) (buf : List ℕ) (sent : ℕ) (s : Transport.Sock T)
      → length buf < n
      → sent + length buf < 2 ^ 31
      → Sends buf sent s (send_loop T n buf sent s)
  unfolding send_loop
  send_loop-Sends zero buf sent s h bound = absurd (omega arith)
  send_loop-Sends (suc n) [] sent s h bound =
      (some sent, s, refl, inr (ap some (omega arith), sym (append-nil (Transport.wire T s))))
  send_loop-Sends (suc n) (b ∷ buf) sent s h bound =
      let whole : List ℕ = b ∷ buf in
      elim (sent_of-cases (Transport.send T whole s).0) [
        | inl e ↦ (none, (Transport.send T whole s).1, rw (e, send_loop) refl, inl refl)
        | inr (k, e, z) ↦
            let s' = (Transport.send T whole s).1 in
            let rest = drop (suc k) whole in
            let (fits, on_wire) = Transport.send_wire T whole s k z in
            let left = length-drop (suc k) whole in
            let sum = add_int_lem sent (suc k) (omega (arith, fits, bound)) in
            let step : send_loop T (suc n) whole sent s ≡ send_loop T n rest (sent + suc k) s' =
              rw (e, send_loop, sum) refl in
            let (c, s'', r, d) =
              send_loop-Sends n rest (sent + suc k) s' (omega (arith, left))
                (omega (arith, left, fits, bound)) in
            (
              c,
              s'',
              step ∙ r,
              elim d [
                | inl f ↦ inl f
                | inr (g, w) ↦ inr (
                  g ∙ ap some (omega (arith, left)),
                  w
                      ∙ ap (λ x. x ++ rest) on_wire
                      ∙ append_assoc (Transport.wire T s) (take (suc k) whole) rest
                      ∙ ap (λ x. Transport.wire T s ++ x) (take-append-drop (suc k) whole),
                )
              ],
            )
      ]

  -- For a buffer whose length an `int` holds, `send_buffer_fully` returns, and where it does not
  -- return -1, it returns the length of the buffer, whose bytes are all on the wire, in their order.
  pub send_buffer_fully-Sends :
      (buf : List ℕ) (s : Transport.Sock T)
      → length buf < 2 ^ 31
      → Sends buf 0 s (send_buffer_fully T buf s)
  unfolding send_buffer_fully
  send_buffer_fully-Sends buf s bound =
      send_loop-Sends (suc (length buf)) buf 0 s (omega arith) (omega (arith, bound))

  module _ {U : Type 0} (payload_cbk : U → EdgehogResult × PayloadChunk × U) where
    -- The user's callback gives the bytes in at most n chunks, of which the last one has the flag.
    abbrev pub Gives : ℕ → U → List ℕ → Type 0
    Gives zero u bytes = ⊥
    Gives (suc n) u bytes =
        ((payload_cbk u).0 ≡ ok)
        × ((((payload_cbk u).1.last_chunk ≡ true) × (bytes ≡ (payload_cbk u).1.bytes))
            ⊎ (((payload_cbk u).1.last_chunk ≡ false)
                × ((rest : List ℕ) × (bytes ≡ (payload_cbk u).1.bytes ++ rest)
                    × Gives n (payload_cbk u).2 rest)))

    -- The end of an upload: every byte is sent, or the request has failed.
    abbrev pub Uploads :
        List ℕ → ℕ → Transport.Sock T → Option (Option ℕ × Context U × Transport.Sock T) → Type 0
    Uploads bytes total s o =
        (k : Option ℕ) × (ctx : Context U) × (s' : Transport.Sock T) × (o ≡ some (k, ctx, s'))
        × (((k ≡ none) × (ctx.result ≡ http_request_error))
            ⊎ ((k ≡ some (total + length bytes))
                × (ctx.result ≡ ok)
                × (Transport.wire T s' ≡ Transport.wire T s ++ bytes)))
