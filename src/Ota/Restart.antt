-- ===== src/Ota/Restart.antt =====
-- An update across the restart of the device: `ota_thread_entry_point`, then `edgehog_ota_init` of
-- lib/edgehog_device/ota.c.
use edgehog_zephyr_device.Prelude.{
  ℕ, zero, suc, ◌+◌, ◌≡◌, inl, inr, refl, ap, ◌∙◌, true, false, List, [], ◌∷◌, ◌++◌, length, some,
  is_negative, c_string, arith,
}
use edgehog_zephyr_device.Result.{EdgehogResult, ok}
use edgehog_zephyr_device.Ota.State.{
  in_progress, reboot, acknowledged, success, error, FlashImg, Device, Delivery, chunk, cancel,
  Attempt, Outcomes,
}
use edgehog_zephyr_device.Ota.Publish.{pub_ota_event, save_state, delete_uuid, message}
use edgehog_zephyr_device.Ota.Download.{
  http_download_payload_cbk, deliver, http_get, perform_ota_attempt, attempt_loop, max_ota_retry,
}
use edgehog_zephyr_device.Ota.Thread.{restarted, perform_ota, late_cancel, ota_thread}
use edgehog_zephyr_device.Ota.Events.{uuid_chars, uuid_length, clear_thread}
use edgehog_zephyr_device.Ota.Boot.{BootOutcomes, swap_none, stored_request, report, ota_init}
use edgehog_zephyr_device.Ota.Complete.{
  attempt_loop-cases, attempt_loop-none, attempted, perform_ota-cases, prepared,
  ota_thread-restarted, deploy-restarted, deployed_device, is_ok-contra,
}

module _ {F : FlashImg} where
  -- What a download leaves as it is.
  unfoldable Kept : Device F → Device F → Type 0
  Kept d d' = (d'.uuid ≡ d.uuid) × (d'.stored_uuid ≡ d.stored_uuid)

  deliver-Kept : (ds : List Delivery) (d : Device F) → Kept d (deliver F ds d).1
  unfolding deliver Kept http_download_payload_cbk pub_ota_event
  deliver-Kept [] d = (refl, refl)
  deliver-Kept (cancel ∷ rest) d = deliver-Kept rest (record d { running = false })
  deliver-Kept (chunk c ∷ rest) d =
      ground (arith, deliver-Kept rest (http_download_payload_cbk F c d).1)

  attempt-Kept : (a : Attempt) (d : Device F) → Kept d (perform_ota_attempt F a d).1
  unfolding perform_ota_attempt http_get Kept
  attempt-Kept a d = ground (arith, deliver-Kept a.deliveries d)

  Kept-trans : (d d' d'' : Device F) → Kept d d' → Kept d' d'' → Kept d d''
  unfolding Kept
  Kept-trans d d' d'' k l = (l.0 ∙ k.0, l.1 ∙ k.1)

  loop-Kept :
      (attempts : ℕ → Attempt) (left i : ℕ) (result : EdgehogResult) (d : Device F)
      → Kept d (attempt_loop F attempts left i result d).1
  unfolding Kept pub_ota_event
  loop-Kept attempts zero i result d = rw (attempt_loop-none attempts i result d) (refl, refl)
  loop-Kept attempts (suc left) i result d =
      let a = perform_ota_attempt F (attempts i) (attempted d) in
      let kept = attempt-Kept (attempts i) (attempted d) in
      elim (attempt_loop-cases attempts left i result d) [
        | inl p ↦ rw p kept
        | inr (q, p) ↦
            let d' = pub_ota_event d.uuid error 0 a.0 a.1 in
            let later = loop-Kept attempts left (i + 1) a.0 d' in
            rw p (Kept-trans d d' (attempt_loop F attempts left (i + 1) a.0 d').1 kept later)
      ]

  perform_ota-stored :
      (o : Outcomes) (d : Device F)
      → (perform_ota F o d).0 ≡ ok
      → Kept (prepared d) (perform_ota F o d).1
  perform_ota-stored o d e = elim (perform_ota-cases o d) [
    | inl f ↦ is_ok-contra (perform_ota F o d).0 f e
    | inr p ↦ rw p (loop-Kept o.attempts max_ota_retry 0 ok (prepared d))
  ]

  -- The device after `report`, `clear_thread` and the restart, seen by what they publish.
  report-success :
      (b : BootOutcomes) (uuid : List ℕ) (d : Device F)
      → d.stored_uuid ≡ some uuid
      → d.stored_state ≡ reboot
      → length (c_string uuid) ≡ uuid_chars
      → b.swap_type ≡ swap_none
      → b.img_confirmed ≡ false
      → is_negative b.write_img_confirmed ≡ false
      → report b d ≡ pub_ota_event (c_string uuid) success 0 ok d
  unfolding report uuid_length stored_request
  report-success b uuid d su ss l sw c n = rw (su, ss, l, sw, c, n) refl

  ota_init-published :
      (b : BootOutcomes) (d : Device F)
      → b.settings_load ≡ true
      → (ota_init b d).published ≡ (report b (clear_thread d)).published
  unfolding ota_init save_state delete_uuid
  ota_init-published b d e = ground arith

  deployed_device-stored :
      (o : Outcomes) (d : Device F)
      → o.save_reboot ≡ true
      → let d' = deployed_device o d in
        (d'.stored_uuid ≡ d.stored_uuid) × (d'.stored_state ≡ reboot)
  unfolding save_state pub_ota_event late_cancel
  deployed_device-stored o d e = ground arith

  -- What the settings hold once the device restarts.
  ota_thread-stored :
      (o : Outcomes) (d : Device F)
      → (ota_thread F o d).0 ≡ restarted
      → o.save_reboot ≡ true
      → let d' = (ota_thread F o d).1 in (d'.stored_uuid ≡ some d.uuid) × (d'.stored_state ≡ reboot)
  unfolding Kept save_state pub_ota_event
  ota_thread-stored o d e sr =
      let started =
        save_state o.save_in_progress in_progress
          (pub_ota_event d.uuid acknowledged 0 ok (record d { sem_free = false })) in
      let (done, p) = ota_thread-restarted o d e in
      let d' = (perform_ota F o started).1 in
      let kept = perform_ota-stored o started done in
      let stored = deployed_device-stored o d' sr in
      let uuid : started.uuid ≡ d.uuid = ground arith in
      rw (p, deploy-restarted o d' (rw p at e)) (stored.0 ∙ kept.1 ∙ ap some uuid, stored.1)

  -- After a restart with the state saved and an identifier of 36 characters, a start that loads the
  -- settings, finds no swap pending and an image that is not confirmed, and confirms it, publishes one
  -- more message: the success of the request that was running.
  pub ota_thread-ota_init :
      (o : Outcomes) (b : BootOutcomes) (d : Device F)
      → (ota_thread F o d).0 ≡ restarted
      → o.save_reboot ≡ true
      → length (c_string d.uuid) ≡ uuid_chars
      → b.settings_load ≡ true
      → b.swap_type ≡ swap_none
      → b.img_confirmed ≡ false
      → is_negative b.write_img_confirmed ≡ false
      → let d' = (ota_thread F o d).1 in
        (ota_init b d').published ≡ d'.published ++ message (c_string d.uuid) success 0 ok ∷ []
  unfolding clear_thread pub_ota_event
  ota_thread-ota_init o b d e sr l sl sw c n =
      let d' = (ota_thread F o d).1 in
      let stored = ota_thread-stored o d e sr in
      let reported = report-success b d.uuid (clear_thread d') stored.0 stored.1 l sw c n in
      ota_init-published b d' sl ∙ ap (λ x. x.published) reported
