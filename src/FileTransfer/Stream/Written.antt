-- ===== src/FileTransfer/Stream/Written.antt =====
-- What a write of lib/edgehog_device/file_transfer/stream.c puts into the pipe.
use edgehog_zephyr_device.Prelude.{
  ℕ, zero, suc, ◌+◌, ◌*◌, ◌-◌, ◌<◌, ◌≤◌, ◌≡◌, ◌⊎◌, inl, inr, refl, sym, ap, subst, ◌≢◌, ◌∙◌,
  Bool-cases, List, [], ◌∷◌, ◌++◌, false, append_assoc, append-nil, length, take, drop, leb, ◌==◌,
  length-drop, take-append-drop, ◌%◌, Option, some, ℤ, pos, negsuc, arith,
}
use edgehog_zephyr_device.Result.{EdgehogResult, ok, internal_error}
use edgehog_zephyr_device.Ztar.Core.{size_mod}
use edgehog_zephyr_device.FileTransfer.Stream.{
  Stream, pipe_timeout, wrote, full, broken, attempt_of, WriteContext, until_timeout, pause,
  append_loop, count_written, write_append,
}

leb-false : (a b : ℕ) → leb a b ≡ false → b < a
leb-false a b h = ground arith

attempt_of-cases :
    (z : ℤ)
    → (((attempt_of z ≡ full) ⊎ (attempt_of z ≡ broken)) × ((k : ℕ) → z ≢ pos (suc k)))
      ⊎ ((k : ℕ) × (attempt_of z ≡ wrote (suc k)) × (z ≡ pos (suc k)))
unfolding attempt_of
attempt_of-cases (pos zero) = inl (inl refl, λ k e. cc)
attempt_of-cases (pos (suc k)) = inr (k, refl, refl)
attempt_of-cases (negsuc n) = elim (Bool-cases (n == 10)) [
  | inl p ↦ inl (inl (rw p refl), λ k e. cc)
  | inr p ↦ inl (inr (rw p refl), λ k e. cc)
]

module _ (S : Stream) where
  -- The bytes are all in the pipe, or the result is an error.
  abbrev Appends : List ℕ → Stream.World S → Option (EdgehogResult × Stream.World S) → Type 0
  Appends rest w o =
      (w' : Stream.World S) × ((o ≡ some (internal_error, w'))
        ⊎ ((o ≡ some (ok, w')) × (Stream.taken_bytes S w' ≡ Stream.taken_bytes S w ++ rest)))

  -- The end of a write: an error with the count as before, or the chunk in the pipe and in the count.
  abbrev pub IsWritten :
      WriteContext
      → List ℕ
      → Stream.World S
      → Option (EdgehogResult × WriteContext × Stream.World S)
      → Type 0
  IsWritten ctx chunk w o =
      (w' : Stream.World S) × ((o ≡ some (internal_error, ctx, w'))
        ⊎ ((o
              ≡ some (
                ok,
                record ctx { transferred_size = (ctx.transferred_size + length chunk) % size_mod },
                w',
              ))
            × (Stream.taken_bytes S w' ≡ Stream.taken_bytes S w ++ chunk)))

  pause-cons :
      (b : ℕ) (rest : List ℕ) (w : Stream.World S)
      → Stream.k_uptime S w + 10 ≤ Stream.k_uptime S (pause S (b ∷ rest) w)
  unfolding pause
  pause-cons b rest w = Stream.sleep_uptime S w

  pause-uptime :
      (rest : List ℕ) (w : Stream.World S)
      → Stream.k_uptime S w ≤ Stream.k_uptime S (pause S rest w)
  unfolding pause
  pause-uptime [] w = omega arith
  pause-uptime (b ∷ rest) w = omega (arith, Stream.sleep_uptime S w)

  pause-taken :
      (rest : List ℕ) (w : Stream.World S)
      → Stream.taken_bytes S (pause S rest w) ≡ Stream.taken_bytes S w
  unfolding pause
  pause-taken [] w = refl
  pause-taken (b ∷ rest) w = Stream.sleep_takes S w

  until_timeout-Appends :
      (start : ℕ) (rest : List ℕ) (w w' : Stream.World S)
      (next : Option (EdgehogResult × Stream.World S))
      → (Stream.k_uptime S w' - start < pipe_timeout → Appends rest w next)
      → Appends rest w (until_timeout S start w' next)
  unfolding until_timeout
  until_timeout-Appends start rest w w' next f =
      elim (Bool-cases (leb pipe_timeout (Stream.k_uptime S w' - start))) [
        | inl p ↦ (w', inl (rw p refl))
        | inr p ↦ rw p (f (leb-false pipe_timeout (Stream.k_uptime S w' - start) p))
      ]

  -- What a round puts into the pipe, and then the rounds behind its pause.
  Appends-pause :
      (front rest : List ℕ) (w w' : Stream.World S) (o : Option (EdgehogResult × Stream.World S))
      → Stream.taken_bytes S w' ≡ Stream.taken_bytes S w ++ front
      → Appends rest (pause S rest w') o
      → Appends (front ++ rest) w o
  Appends-pause front rest w w' o e (v, inl f) = (v, inl f)
  Appends-pause front rest w w' o e (v, inr (f, g)) = (
    v,
    inr (
      f,
      g
          ∙ ap (λ x. x ++ rest) (pause-taken rest w' ∙ e)
          ∙ append_assoc (Stream.taken_bytes S w) front rest,
    ),
  )

  append_loop-Appends :
      (n start k : ℕ) (rest : List ℕ) (w : Stream.World S)
      → start + 10 * k ≤ Stream.k_uptime S w
      → 201 * length rest + (200 - k) < n
      → Appends rest w (append_loop S n start rest w)
  unfolding append_loop
  append_loop-Appends zero start k rest w h g = absurd (omega arith)
  append_loop-Appends (suc n) start k [] w h g =
      (w, inr (refl, sym (append-nil (Stream.taken_bytes S w))))
  append_loop-Appends (suc n) start k (b ∷ rest) w h g =
      let whole : List ℕ = b ∷ rest in
      let w' = (Stream.k_pipe_write S whole w).1 in
      let later = Stream.write_uptime S whole w in
      elim (Bool-cases (Stream.has_error S w)) [
        | inl p ↦ (w, inl (rw p refl))
        | inr p ↦ elim (attempt_of-cases (Stream.k_pipe_write S whole w).0) [
          | inl (inr e, z) ↦ (w', inl (rw (p, e) refl))
          | inl (inl e, z) ↦
              rw (p, e)
                (until_timeout-Appends start whole w w' _ (λ t.
                  Appends-pause [] whole w w' _
                    (Stream.write_refuses S whole w z ∙ sym (append-nil (Stream.taken_bytes S w)))
                    (append_loop-Appends n start (suc k) whole (pause S whole w')
                      (omega (arith, later, h, t, pause-cons b rest w'))
                      (omega (arith, later, h, g, t)))))
          | inr (j, e, z) ↦
              let rest' = drop (suc j) whole in
              let start' = Stream.k_uptime S w' in
              let (fits, bytes) = Stream.write_takes S whole w j z in
              let left = length-drop (suc j) whole in
              rw (p, e)
                (until_timeout-Appends start' whole w w' _ (λ t.
                  subst (λ x. Appends x w (append_loop S n start' rest' (pause S rest' w')))
                    (take-append-drop (suc j) whole)
                    (Appends-pause (take (suc j) whole) rest' w w' _ bytes (
                      append_loop-Appends n start' 0 rest' (pause S rest' w')
                        (omega (arith, pause-uptime rest' w')) (omega (arith, left, fits, g))))))
        ]
      ]

  -- Whatever the application does, a write to a stream returns. A success means that the pipe has taken exactly the chunk behind what it had, and that its length is counted; after an error the count is as before.
  pub write_append-IsWritten :
      (ctx : WriteContext) (chunk : List ℕ) (w : Stream.World S)
      → IsWritten ctx chunk w (write_append S ctx chunk w)
  unfolding write_append count_written
  write_append-IsWritten ctx chunk w =
      let (w', d) =
        append_loop-Appends (201 * length chunk + 201) (Stream.k_uptime S w) 0 chunk w (omega arith)
          (omega arith) in
      elim d [ inl e ↦ (w', inl (rw e refl)) | inr (e, t) ↦ (w', inr (rw e refl, t)) ]
