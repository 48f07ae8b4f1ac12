-- ===== src/Ota/Requests.antt =====
-- The requests of the server (`edgehog_ota_event`, lib/edgehog_device/ota.c) and the update thread.
use edgehog_zephyr_device.Prelude.{
  ℕ, ◌≡◌, ◌⊎◌, inl, inr, refl, sym, ap, ◌∙◌, ◌==◌, Bool-cases, Option-cases, bytes_eq,
  bytes_eq_sound, true, false, List, [], ◌∷◌, length, Option, none, some, codes, arith,
}
use edgehog_zephyr_device.Result.{ok, ota_already_in_progress, thread_create_error, ota_canceled}
use edgehog_zephyr_device.Ota.State.{FlashImg, Device, Delivery, chunk, cancel, Attempt}
use edgehog_zephyr_device.Ota.Publish.{pub_ota_event}
use edgehog_zephyr_device.Ota.Download.{
  http_download_payload_cbk, deliver, http_get, perform_ota_attempt,
}
use edgehog_zephyr_device.Ota.Events.{
  Entry, EventOutcomes, uuid_chars, clear_thread, event_update, event_cancel, ota_event, last_value,
  with_request, ota_operation,
}

module _ {F : FlashImg} where
  -- A failed creation of the thread leaves the run bit set, so that the next update is refused
  -- although none runs.
  pub event_update-stuck :
      (o o' : EventOutcomes) (uuid uuid' url url' : List ℕ) (d : Device F)
      → (event_update o uuid url d).0 ≡ thread_create_error
      → (event_update o' uuid' url' (event_update o uuid url d).1).0 ≡ ota_already_in_progress
  unfolding event_update clear_thread pub_ota_event
  event_update-stuck o o' uuid uuid' url url' d e = ground arith

  -- The parts of the device that only a download changes.
  abbrev pub SameImage : Device F → Device F → Type 0
  SameImage d d' = (d.flash_ctx ≡ d'.flash_ctx) × (d.published ≡ d'.published)

  deliver-stopped :
      (ds : List Delivery) (d : Device F)
      → d.running ≡ false
      → let r = (deliver F ds d).1 in (r.running ≡ false) × SameImage r d
  unfolding deliver http_download_payload_cbk
  deliver-stopped [] d e = (e, (refl, refl))
  deliver-stopped (cancel ∷ rest) d e = deliver-stopped rest (record d { running = false }) refl
  deliver-stopped (chunk c ∷ rest) d e = ground arith

  -- An attempt after a cancellation, whatever still arrives, ends as canceled, writes nothing to the
  -- flash and publishes nothing.
  pub perform_ota_attempt-canceled :
      (a : Attempt) (d : Device F)
      → d.running ≡ false
      → ((perform_ota_attempt F a d).0 ≡ ota_canceled) × SameImage (perform_ota_attempt F a d).1 d
  unfolding perform_ota_attempt http_get
  perform_ota_attempt-canceled a d e = ground (arith, deliver-stopped a.deliveries d e)

  -- An update that the server asks for has started, on a device whose run bit was clear.
  unfoldable pub IsStarted : List Entry → Device F → Device F → Type 0
  IsStarted entries d d' =
      (last_value (codes "operation") entries ≡ some (codes "Update"))
      × (d.running ≡ false)
      × (d'.running ≡ true)
      × (last_value (codes "uuid") entries ≡ some d'.uuid)
      × (last_value (codes "url") entries ≡ some d'.download_url)
      × (length d'.uuid ≡ uuid_chars)
      × (d'.last_perc_sent ≡ 0)

  -- The run bit of an update is cleared, as the server asks for, and nothing else is changed.
  abbrev pub IsStopped : List Entry → Device F → Device F → Type 0
  IsStopped entries d d' =
      (last_value (codes "operation") entries ≡ some (codes "Cancel"))
      × (d.running ≡ true)
      × (d' ≡ record d { running = false })

  event_update-ok :
      (o : EventOutcomes) (uuid url : List ℕ) (d : Device F)
      → (event_update o uuid url d).0 ≡ ok
      → let d' = (event_update o uuid url d).1 in
        (d.running ≡ false)
        × (d'.running ≡ true)
        × (d'.uuid ≡ uuid)
        × (d'.download_url ≡ url)
        × (d'.last_perc_sent ≡ 0)
  unfolding event_update clear_thread
  event_update-ok o uuid url d = ground arith

  event_cancel-ok :
      (o : EventOutcomes) (uuid : List ℕ) (d : Device F)
      → (event_cancel o uuid d).0 ≡ ok
      → (d.running ≡ true) × ((event_cancel o uuid d).1 ≡ record d { running = false })
  unfolding event_cancel
  event_cancel-ok o uuid d = ground arith

  -- An operation that is answered with success is one of the two.
  ota_operation-ok :
      (o : EventOutcomes) (uuid : List ℕ) (url : Option (List ℕ)) (operation : List ℕ)
      (d : Device F)
      → let r = ota_operation o uuid url operation d in
        r.0 ≡ ok
        → ((operation ≡ codes "Update")
            × ((u : List ℕ) × (url ≡ some u) × (r ≡ event_update o uuid u d)))
          ⊎ ((operation ≡ codes "Cancel") × (r ≡ event_cancel o uuid d))
  unfolding ota_operation
  ota_operation-ok o uuid url operation d k =
      elim (Bool-cases (bytes_eq (codes "Update") operation)) [
        | inl p ↦ elim (Option-cases url) [
          | inl q ↦ absurd (ground arith)
          | inr (u, q) ↦
              inl (sym (bytes_eq_sound (codes "Update") operation p), (u, q, rw (p, q) refl))
        ]
        | inr p ↦ elim (Bool-cases (bytes_eq (codes "Cancel") operation)) [
          | inl q ↦ inr (sym (bytes_eq_sound (codes "Cancel") operation q), rw (p, q) refl)
          | inr q ↦ absurd (ground arith)
        ]
      ]

  with_request-ok :
      (o : EventOutcomes) (entries : List Entry) (uuid url operation : Option (List ℕ))
      (d : Device F)
      → last_value (codes "uuid") entries ≡ uuid
      → last_value (codes "url") entries ≡ url
      → last_value (codes "operation") entries ≡ operation
      → let r = with_request o uuid url operation d in
        r.0 ≡ ok → IsStarted entries d r.1 ⊎ IsStopped entries d r.1
  unfolding with_request IsStarted
  with_request-ok o entries none url operation d e f g k = ground arith
  with_request-ok o entries (some uuid) url none d e f g k = ground arith
  with_request-ok o entries (some uuid) url (some operation) d e f g k =
      elim (Bool-cases (length uuid == uuid_chars)) [
        | inr p ↦ absurd (ground arith)
        | inl p ↦
            let r = ota_operation o uuid url operation d in
            let done : r.0 ≡ ok = rw p at k in
            elim (ota_operation-ok o uuid url operation d done) [
              | inl (q, (u, w, z)) ↦
                  let started = event_update-ok o uuid u d (ap (λ x. x.0) (sym z) ∙ done) in
                  inl (rw (p, z) (ground (arith, started)))
              | inr (q, z) ↦
                  let stopped = event_cancel-ok o uuid d (ap (λ x. x.0) (sym z) ∙ done) in
                  inr (g ∙ ap some q, stopped.0, rw (p, z) stopped.1)
            ]
      ]

  -- An event that is answered with success is of one of two kinds. Its last operation is "Update":
  -- the run bit was clear and is set, and the device holds the last identifier, of 36 characters, and
  -- the last URL of the event, with no progress reported. Or its last operation is "Cancel": the run
  -- bit was set and is cleared, and nothing else is changed.
  pub ota_event-ok :
      (o : EventOutcomes) (entries : List Entry) (d : Device F)
      → (ota_event o entries d).0 ≡ ok
      → let d' = (ota_event o entries d).1 in IsStarted entries d d' ⊎ IsStopped entries d d'
  unfolding ota_event
  ota_event-ok o entries d e =
      with_request-ok o entries (last_value (codes "uuid") entries)
        (last_value (codes "url") entries) (last_value (codes "operation") entries) d refl refl refl
        e
