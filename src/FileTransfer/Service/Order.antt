-- ===== src/FileTransfer/Service/Order.antt =====
-- The order of the transfers of a running service, lib/edgehog_device/file_transfer/core.c.
use edgehog_zephyr_device.Prelude.{
  ◌≡◌, refl, sym, ◌∙◌, ap, true, List, [], ◌∷◌, ◌++◌, append_assoc, append-nil, Bool-cases, inl,
  inr,
}
use edgehog_zephyr_device.FileTransfer.Message.Types.{Message}
use edgehog_zephyr_device.FileTransfer.Service.State.{
  Phase, absent, at_loop, getting, at_wait, taking, transferring, Service, World, in_hand, line,
}
use edgehog_zephyr_device.FileTransfer.Service.Thread.{get_message, phase_step, thread_step}
use edgehog_zephyr_device.FileTransfer.Service.Steps.{put, ota_take, ota_give}

-- What happens while no stop is asked for, with the requests that are put in the queue.
pub data Serves (w : World) : List Message → World → Type 0 where
  done : Serves w [] w
  thread : {ms : List Message} {v : World} → Serves w ms v → Serves w ms (thread_step v)
  request :
      {ms : List Message} {v : World} (m : Message)
      → Serves w ms v
      → Serves w (ms ++ m ∷ []) (put m v)
  take :
      {ms : List Message} {v : World} → v.sem_free ≡ true → Serves w ms v → Serves w ms (ota_take v)
  give :
      {ms : List Message} {v : World}
      → v.ota_holds ≡ true
      → Serves w ms v
      → Serves w ms (ota_give v)

get_message-line :
    (queue : List Message) (s : Service)
    → s.queue ≡ queue
    → s.phase ≡ getting
    → (line (get_message queue s) ≡ line s) × ((get_message queue s).running ≡ s.running)
unfolding get_message line in_hand
get_message-line [] s e p = (rw (e, p) refl, refl)
get_message-line (m ∷ queue) s e p = (rw (e, p) refl, refl)

-- A step of the thread of a running service keeps every transfer in its place.
phase_step-line :
    (p : Phase) (w : World)
    → w.service.phase ≡ p
    → w.service.running ≡ true
    → (line (phase_step p w).service ≡ line w.service) × ((phase_step p w).service.running ≡ true)
unfolding phase_step line in_hand
phase_step-line absent w e r = (refl, r)
phase_step-line at_loop w e r = (rw (r, e) refl, r)
phase_step-line getting w e r =
    let (l, t) = get_message-line w.service.queue w.service refl e in (l, t ∙ r)
phase_step-line (at_wait m) w e r = (rw (r, e) refl, r)
phase_step-line (taking m) w e r = elim (Bool-cases w.sem_free) [
  | inl p ↦ rw (p, e) (refl, r)
  | inr p ↦ rw (p, e) (refl, r)
]
phase_step-line (transferring m) w e r =
    let s = w.service in (rw e (append_assoc s.handled (m ∷ []) s.queue), r)

-- A request goes to the end.
put-line : (m : Message) (w : World) → line (put m w).service ≡ line w.service ++ m ∷ []
unfolding put line
put-line m w =
    let s = w.service in
    let held = in_hand s.phase in
    let e = append_assoc held s.queue (m ∷ []) in
    rw (← e) (sym (append_assoc s.handled (held ++ s.queue) (m ∷ [])))

put-running : (m : Message) (w : World) → (put m w).service.running ≡ w.service.running
unfolding put
put-running m w = refl

-- While no stop is asked for, the service handles the requests in the order in which they are put in
-- its queue and loses none: those at their end, the one in hand and those in the queue are the ones
-- of before, followed by the new ones.
pub Serves-line :
    {w v : World} {ms : List Message}
    → w.service.running ≡ true
    → Serves w ms v
    → (line v.service ≡ line w.service ++ ms) × (v.service.running ≡ true)
unfolding thread_step ota_take ota_give
Serves-line {w} r done = (sym (append-nil (line w.service)), r)
Serves-line {w} r (thread {ms} {v} s) =
    let (l, run) = Serves-line r s in
    let (kept, still) = phase_step-line v.service.phase v refl run in (kept ∙ l, still)
Serves-line {w} r (request {ms} {v} m s) =
    let (l, run) = Serves-line r s in
    (
      put-line m v ∙ (ap (λ k. k ++ m ∷ []) l ∙ append_assoc (line w.service) ms (m ∷ [])),
      put-running m v ∙ run,
    )
Serves-line r (take free s) = Serves-line r s
Serves-line r (give holds s) = Serves-line r s
