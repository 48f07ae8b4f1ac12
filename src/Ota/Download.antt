-- ===== src/Ota/Download.antt =====
-- The download of an image in lib/edgehog_device/ota.c: the callback for a chunk, one attempt, and
-- the attempts in a row.
use edgehog_zephyr_device.Prelude.{
  ℕ, zero, suc, ◌+◌, ◌-◌, ◌*◌, ◌/◌, ◌%◌, ◌^◌, Bool, true, false, not, ◌||◌, List, [], ◌∷◌,
  is_negative, ◌==◌, if◌then◌else◌,
}
use edgehog_zephyr_device.Result.{
  EdgehogResult, ok, is_ok, http_request_aborted, http_request_error, ota_write_flash_error,
  ota_canceled, network_error,
}
use edgehog_zephyr_device.Ota.State.{
  FlashImg, Device, Chunk, Delivery, chunk, cancel, Attempt, downloading, error,
}
use edgehog_zephyr_device.Ota.Publish.{pub_ota_event}

abbrev pub max_ota_retry : ℕ
max_ota_retry = 5

-- The percentage of a response with a length, computed in a 32-bit `size_t` and rounded down to a
-- multiple of ten.
unfoldable pub rounded_percentage : ℕ → ℕ → ℕ
rounded_percentage download_size response_size =
    let read_perc = ((100 * download_size) % 2 ^ 32) / response_size in read_perc - read_perc % 10

abbrev pub is_canceled : EdgehogResult → Bool
is_canceled ota_canceled = true
is_canceled _ = false

module _ (F : FlashImg) where
  -- `http_download_payload_cbk`, past the null checks.
  unfoldable pub http_download_payload_cbk : Chunk → Device F → EdgehogResult × Device F
  http_download_payload_cbk c d =
      let (ret, ctx) = FlashImg.buffered_write F d.flash_ctx c.chunk_size c.last_chunk in
      let download_size = FlashImg.bytes_written F ctx in
      let perc = rounded_percentage download_size c.response_size in
      let d' : Device F = record d {
        flash_ctx = ctx;
        image_size = c.response_size;
        download_size = download_size;
      } in
      if not d.running
      then (http_request_aborted, d)
      else if is_negative ret
      then (ota_write_flash_error, record d { flash_ctx = ctx })
      else if perc == d.last_perc_sent
      then (ok, d')
      else (
        ok,
        record (pub_ota_event d.uuid downloading perc ok d') { last_perc_sent = perc % 256 },
      )

  -- The deliveries of one download, up to the first chunk that the callback refuses.
  unfoldable pub deliver : List Delivery → Device F → EdgehogResult × Device F
  deliver [] d = (ok, d)
  deliver (cancel ∷ rest) d = deliver rest (record d { running = false })
  deliver (chunk c ∷ rest) d =
      let (res, d') = http_download_payload_cbk c d in
      let continued = deliver rest d' in if is_ok res then continued else (res, d')

  -- `edgehog_http_get`: a failure of the client comes before one of the callback.
  unfoldable pub http_get : Attempt → Device F → EdgehogResult × Device F
  http_get a d =
      let (res, d') = deliver a.deliveries d in
      (if a.http_failed then http_request_error else res, d')

  unfoldable pub perform_ota_attempt : Attempt → Device F → EdgehogResult × Device F
  perform_ota_attempt a d =
      let (res, d') = http_get a d in
      let download_size = FlashImg.bytes_written F d'.flash_ctx in
      let d'' : Device F = record d' { download_size = download_size } in
      if not d'.running
      then (ota_canceled, d')
      else if not (is_ok res)
      then (res, d')
      else if download_size == 0 || not (download_size == d'.image_size)
      then (network_error, d'')
      else (ok, d'')

  -- The `for` loop of `perform_ota`, with the attempts left and the number of the next one.
  unfoldable pub attempt_loop :
      (ℕ → Attempt) → ℕ → ℕ → EdgehogResult → Device F → EdgehogResult × Device F
  attempt_loop attempts zero i last d = (last, d)
  attempt_loop attempts (suc left) i last d =
      let (res, d') = perform_ota_attempt (attempts i) (pub_ota_event d.uuid downloading 0 ok d) in
      let retried = attempt_loop attempts left (i + 1) res (pub_ota_event d.uuid error 0 res d') in
      if is_ok res || is_canceled res then (res, d') else retried
