-- ===== src/Ota/Complete.antt =====
-- An image is complete when the update thread restarts the device (`perform_ota` and
-- `ota_thread_entry_point` of lib/edgehog_device/ota.c).
use edgehog_zephyr_device.Prelude.{
  ℕ, zero, suc, ◌+◌, ◌<◌, ◌≡◌, ◌⊎◌, inl, inr, refl, sym, ap, ◌∙◌, subst, Bool, true, false, not,
  ◌||◌, some, is_zero, Bool-cases, arith,
}
use edgehog_zephyr_device.Result.{EdgehogResult, ok, is_ok}
use edgehog_zephyr_device.Ota.State.{
  OtaState, in_progress, reboot, acknowledged, downloading, deploying, deployed, rebooting, error,
  FlashImg, Device, Attempt, Outcomes,
}
use edgehog_zephyr_device.Ota.Publish.{pub_ota_event, save_state}
use edgehog_zephyr_device.Ota.Download.{
  http_get, perform_ota_attempt, attempt_loop, is_canceled, max_ota_retry,
}
use edgehog_zephyr_device.Ota.Thread.{
  restarted, perform_ota, late_cancel, deploy, give_up, download_and_deploy, ota_thread,
}

pub is_ok-contra {ℓ} : {A : Type ℓ} (r : EdgehogResult) → is_ok r ≡ false → r ≡ ok → A
is_ok-contra r f e = absurd (ground arith)

pub is_ok-ok : (r : EdgehogResult) → is_ok r ≡ true → r ≡ ok
is_ok-ok r e = ground arith

module _ {F : FlashImg} where
  -- The update still runs, and the bytes in the flash are those of an image of the announced size.
  unfoldable pub IsComplete : Device F → Type 0
  IsComplete d =
      (d.running ≡ true)
      × (0 < FlashImg.bytes_written F d.flash_ctx)
      × (FlashImg.bytes_written F d.flash_ctx ≡ d.image_size)

  pub perform_ota_attempt-IsComplete :
      (a : Attempt) (d : Device F)
      → (perform_ota_attempt F a d).0 ≡ ok
      → IsComplete (perform_ota_attempt F a d).1
  unfolding perform_ota_attempt http_get IsComplete
  perform_ota_attempt-IsComplete a d = ground arith

  -- The state of the device when an attempt starts.
  abbrev pub attempted : Device F → Device F
  attempted d = pub_ota_event d.uuid downloading 0 ok d

  -- The loop ends with an attempt that succeeds or is canceled, and goes on after any other.
  pub attempt_loop-cases :
      (attempts : ℕ → Attempt) (left i : ℕ) (last : EdgehogResult) (d : Device F)
      → let a = perform_ota_attempt F (attempts i) (attempted d) in
        (attempt_loop F attempts (suc left) i last d ≡ a)
        ⊎ ((is_ok a.0 ≡ false)
            × (attempt_loop F attempts (suc left) i last d
                ≡ attempt_loop F attempts left (i + 1) a.0 (pub_ota_event d.uuid error 0 a.0 a.1)))
  unfolding attempt_loop
  attempt_loop-cases attempts left i last d =
      let a = perform_ota_attempt F (attempts i) (attempted d) in
      elim (Bool-cases (is_ok a.0 || is_canceled a.0)) [
        | inl e ↦ inl (rw e refl)
        | inr e ↦ inr (ground arith, rw e refl)
      ]

  pub attempt_loop-none :
      (attempts : ℕ → Attempt) (i : ℕ) (last : EdgehogResult) (d : Device F)
      → attempt_loop F attempts zero i last d ≡ (last, d)
  unfolding attempt_loop
  attempt_loop-none attempts i last d = refl

  pub attempt_loop-IsComplete :
      (attempts : ℕ → Attempt) (left i : ℕ) (last : EdgehogResult) (d : Device F)
      → (left ≡ 0 → is_ok last ≡ false)
      → (attempt_loop F attempts left i last d).0 ≡ ok
      → IsComplete (attempt_loop F attempts left i last d).1
  attempt_loop-IsComplete attempts zero i last d failed e =
      is_ok-contra last (failed refl)
        (ap (λ r. r.0) (sym (attempt_loop-none attempts i last d)) ∙ e)
  attempt_loop-IsComplete attempts (suc left) i last d failed e =
      elim (attempt_loop-cases attempts left i last d) [
        | inl p ↦ rw p (perform_ota_attempt-IsComplete (attempts i) (attempted d) (rw p at e))
        | inr (q, p) ↦
            let a = perform_ota_attempt F (attempts i) (attempted d) in
            rw p (
              attempt_loop-IsComplete attempts left (i + 1) a.0
                (pub_ota_event d.uuid error 0 a.0 a.1) (λ _. q) (rw p at e))
      ]

  -- The device once the secondary slot is ready for the image.
  abbrev pub prepared : Device F → Device F
  prepared d = record d { flash_ctx = FlashImg.init_ctx F; stored_uuid = some d.uuid }

  pub perform_ota-cases :
      (o : Outcomes) (d : Device F)
      → (is_ok (perform_ota F o d).0 ≡ false)
        ⊎ (perform_ota F o d ≡ attempt_loop F o.attempts max_ota_retry 0 ok (prepared d))
  unfolding perform_ota
  perform_ota-cases o d = elim (Bool-cases (is_zero o.erase_img_bank)) [
    | inl a ↦ elim (Bool-cases (is_zero o.flash_init)) [
      | inl b ↦ elim (Bool-cases (is_ok o.save_uuid)) [
        | inl c ↦ inr (rw (a, b, c) refl)
        | inr c ↦ inl (rw (a, b, c) c)
      ]
      | inr b ↦ inl (rw (a, b) refl)
    ]
    | inr a ↦ inl (rw a refl)
  ]

  pub perform_ota-IsComplete :
      (o : Outcomes) (d : Device F) → (perform_ota F o d).0 ≡ ok → IsComplete (perform_ota F o d).1
  perform_ota-IsComplete o d e = elim (perform_ota-cases o d) [
    | inl f ↦ is_ok-contra (perform_ota F o d).0 f e
    | inr p ↦ rw p (
        attempt_loop-IsComplete o.attempts max_ota_retry 0 ok (prepared d)
          (λ z. absurd (omega arith)) (rw p at e))
  ]

  save_state-IsComplete :
      (works : Bool) (s : OtaState) (d : Device F)
      → IsComplete d
      → IsComplete (save_state works s d)
  unfolding save_state pub_ota_event IsComplete
  save_state-IsComplete true s d c = c
  save_state-IsComplete false s d c = c

  -- The device once it waits for its restart.
  abbrev pub deployed_device : Outcomes → Device F → Device F
  deployed_device o d =
      let ready =
        save_state o.save_reboot reboot (late_cancel F o (pub_ota_event d.uuid deploying 0 ok d)) in
      pub_ota_event d.uuid rebooting 0 ok (pub_ota_event d.uuid deployed 0 ok ready)

  pub deploy-restarted :
      (o : Outcomes) (d : Device F)
      → (deploy F o d).0 ≡ restarted
      → (deploy F o d).1 ≡ deployed_device o d
  unfolding deploy
  deploy-restarted o d e = ground arith

  pub ota_thread-restarted :
      (o : Outcomes) (d : Device F)
      → (ota_thread F o d).0 ≡ restarted
      → let p = perform_ota F o (
          save_state o.save_in_progress in_progress
            (pub_ota_event d.uuid acknowledged 0 ok (record d { sem_free = false }))) in
        (p.0 ≡ ok) × (ota_thread F o d ≡ deploy F o p.1)
  unfolding ota_thread download_and_deploy give_up
  ota_thread-restarted o d e = ground arith

  -- The state at the restart: the bytes in the flash are those of an image of the announced size, and
  -- the run bit is set, but for a cancellation that came too late.
  unfoldable pub IsRestarted : Outcomes → Device F → Type 0
  IsRestarted o d =
      (d.running ≡ not o.cancel_late)
      × (0 < FlashImg.bytes_written F d.flash_ctx)
      × (FlashImg.bytes_written F d.flash_ctx ≡ d.image_size)

  deployed_device-IsComplete :
      (o : Outcomes) (d : Device F) → IsComplete d → IsRestarted o (deployed_device o d)
  unfolding save_state pub_ota_event late_cancel IsComplete IsRestarted
  deployed_device-IsComplete o d c = ground arith

  -- When the device restarts, the flash holds as many bytes as the image announced, and more than none.
  -- The run bit is set, so that no cancellation was accepted, unless one came after the thread's last
  -- test of the bit: such a one clears the bit, and the device restarts all the same.
  pub ota_thread-IsComplete :
      (o : Outcomes) (d : Device F)
      → (ota_thread F o d).0 ≡ restarted
      → IsRestarted o (ota_thread F o d).1
  ota_thread-IsComplete o d e =
      let started =
        save_state o.save_in_progress in_progress
          (pub_ota_event d.uuid acknowledged 0 ok (record d { sem_free = false })) in
      let (done, p) = ota_thread-restarted o d e in
      let d' = (perform_ota F o started).1 in
      let complete = deployed_device-IsComplete o d' (perform_ota-IsComplete o started done) in
      rw p (subst (IsRestarted o) (sym (deploy-restarted o d' (rw p at e))) complete)
