-- ===== src/Ota/Retry.antt =====
-- The attempts of `perform_ota` (lib/edgehog_device/ota.c), which share one flash context.
use edgehog_zephyr_device.Prelude.{
  ℕ, zero, suc, ◌+◌, ◌≤◌, ◌<◌, ◌≡◌, ◌≢◌, inl, inr, sym, ap, ◌∙◌, true, false, List, [], ◌∷◌, arith,
}
use edgehog_zephyr_device.Result.{EdgehogResult, ok, is_ok}
use edgehog_zephyr_device.Ota.State.{
  error, FlashImg, Device, Chunk, Delivery, chunk, cancel, Attempt,
}
use edgehog_zephyr_device.Ota.Publish.{pub_ota_event}
use edgehog_zephyr_device.Ota.Download.{
  http_download_payload_cbk, deliver, http_get, perform_ota_attempt, attempt_loop,
}
use edgehog_zephyr_device.Ota.Complete.{
  attempt_loop-cases, attempt_loop-none, attempted, is_ok-contra,
}

-- The deliveries of a download of `n` bytes: each chunk announces the image's size, and the last one
-- asks for the flush.
pub data IsDownload (size : ℕ) : ℕ → List Delivery → Type 0 where
  final_chunk :
      (c : Chunk)
      → c.response_size ≡ size
      → c.last_chunk ≡ true
      → IsDownload size c.chunk_size (chunk c ∷ [])
  next_chunk :
      (c : Chunk) (n : ℕ) (rest : List Delivery)
      → c.response_size ≡ size
      → IsDownload size n rest
      → IsDownload size (c.chunk_size + n) (chunk c ∷ rest)

module _ {F : FlashImg} where
  -- The bytes that the flash context has accepted.
  abbrev pub accepted : Device F → ℕ
  accepted d = FlashImg.accepted F d.flash_ctx

  -- The callback accepts the bytes of its chunk.
  chunk-accepted :
      (c : Chunk) (d : Device F)
      → (http_download_payload_cbk F c d).0 ≡ ok
      → let d' = (http_download_payload_cbk F c d).1 in
        (accepted d' ≡ accepted d + c.chunk_size)
        × (d'.image_size ≡ c.response_size)
        × (c.last_chunk ≡ true → FlashImg.bytes_written F d'.flash_ctx ≡ accepted d')
  unfolding http_download_payload_cbk pub_ota_event
  chunk-accepted c d e = ground (
    arith,
    FlashImg.write_accepts F d.flash_ctx c.chunk_size c.last_chunk,
    FlashImg.flush_writes F d.flash_ctx c.chunk_size,
  )

  chunk-grows :
      (c : Chunk) (d : Device F) → accepted d ≤ accepted (http_download_payload_cbk F c d).1
  unfolding http_download_payload_cbk pub_ota_event
  chunk-grows c d = ground (arith, FlashImg.write_keeps F d.flash_ctx c.chunk_size c.last_chunk)

  deliver-grows : (ds : List Delivery) (d : Device F) → accepted d ≤ accepted (deliver F ds d).1
  unfolding deliver
  deliver-grows [] d = omega arith
  deliver-grows (cancel ∷ rest) d = deliver-grows rest (record d { running = false })
  deliver-grows (chunk c ∷ rest) d =
      ground (arith, chunk-grows c d, deliver-grows rest (http_download_payload_cbk F c d).1)

  deliver-accepted :
      (size n : ℕ) (ds : List Delivery) (d : Device F)
      → IsDownload size n ds
      → (deliver F ds d).0 ≡ ok
      → let d' = (deliver F ds d).1 in
        (accepted d' ≡ accepted d + n)
        × (d'.image_size ≡ size)
        × (FlashImg.bytes_written F d'.flash_ctx ≡ accepted d')
  unfolding deliver
  deliver-accepted size n ds d (final_chunk c s l) e = ground (arith, chunk-accepted c d)
  deliver-accepted size m ds d (next_chunk c n rest s w) e =
      let d' = (http_download_payload_cbk F c d).1 in
      ground (arith, chunk-accepted c d, deliver-accepted size n rest d' w)

  attempt-grows : (a : Attempt) (d : Device F) → accepted d ≤ accepted (perform_ota_attempt F a d).1
  unfolding perform_ota_attempt http_get
  attempt-grows a d = ground (arith, deliver-grows a.deliveries d)

  -- A download of a whole image, chunk by chunk, makes an attempt succeed only if the flash context
  -- had accepted no byte before the attempt.
  perform_ota_attempt-fresh :
      (size : ℕ) (a : Attempt) (d : Device F)
      → IsDownload size size a.deliveries
      → (perform_ota_attempt F a d).0 ≡ ok
      → FlashImg.accepted F d.flash_ctx ≡ 0
  unfolding perform_ota_attempt http_get
  perform_ota_attempt-fresh size a d w e =
      ground (arith, deliver-accepted size size a.deliveries d w)

  -- Once the flash context of an update has accepted a byte, no further attempt succeeds, however
  -- many are left, if each of them downloads a whole image.
  pub attempt_loop-stuck :
      (size : ℕ → ℕ) (attempts : ℕ → Attempt) (left i : ℕ) (result : EdgehogResult) (d : Device F)
      → ((k : ℕ) → IsDownload (size k) (size k) (attempts k).deliveries)
      → is_ok result ≡ false
      → 0 < FlashImg.accepted F d.flash_ctx
      → (attempt_loop F attempts left i result d).0 ≢ ok
  unfolding pub_ota_event
  attempt_loop-stuck size attempts zero i result d w f g e =
      is_ok-contra result f (ap (λ r. r.0) (sym (attempt_loop-none attempts i result d)) ∙ e)
  attempt_loop-stuck size attempts (suc left) i result d w f g e =
      elim (attempt_loop-cases attempts left i result d) [
        | inl p ↦
            let fresh =
              perform_ota_attempt-fresh (size i) (attempts i) (attempted d) (w i) (rw p at e) in
            absurd (omega (arith, fresh, g))
        | inr (q, p) ↦
            let a = perform_ota_attempt F (attempts i) (attempted d) in
            attempt_loop-stuck size attempts left (i + 1) a.0 (pub_ota_event d.uuid error 0 a.0 a.1)
              w q (omega (arith, attempt-grows (attempts i) (attempted d), g)) (rw p at e)
      ]
