-- ===== src/FileTransfer/Service/Reported.antt =====
-- Every request is queued or refused with a report (lib/edgehog_device/file_transfer/core.c).
use edgehog_zephyr_device.Prelude.{
  ℕ, ◌<◌, ◌≡◌, ◌≢◌, ◌⊎◌, inl, inr, refl, ltb, true, false, List, [], ◌∷◌, ◌++◌, length, Option,
  none, some, Bool-cases, Option-cases, arith,
}
use edgehog_zephyr_device.Result.{
  EdgehogResult, ok, is_ok, device_not_ready, file_transfer_queue_error,
}
use edgehog_zephyr_device.FileTransfer.Message.Types.{
  TransferType, Entry, Message, zero_message, is_nil, ParsedHeaders, Environment,
}
use edgehog_zephyr_device.FileTransfer.Message.Accepted.{IsRequest, msg_init-IsRequest}
use edgehog_zephyr_device.FileTransfer.Message.Init.{
  headers_of, check_message, finish_message, msg_init,
}
use edgehog_zephyr_device.FileTransfer.Message.Parse.{parse_entries}
use edgehog_zephyr_device.FileTransfer.Service.State.{Service}
use edgehog_zephyr_device.FileTransfer.Service.Thread.{ft_is_running}
use edgehog_zephyr_device.FileTransfer.Service.Requests.{
  Errno, no_error, epipe, eagain, Response, Processed, response_code, send_response, fail_event,
  put_message, process_message, process_event,
}

-- A request that is queued: the service runs and its queue has room, the message goes to the end of
-- the queue, and nothing is reported yet.
pub record IsQueued (env : Environment) (queue_size : ℕ) (type : TransferType)
    (entries : List Entry) (before : Option Service) (p : Processed) : Type 0 where
  pub service : Service
  pub asked : Message
  pub requested : IsRequest env type entries asked
  pub started : before ≡ some service
  pub running : service.running ≡ true
  pub room : length service.queue < queue_size
  pub queued : p.service ≡ some (record service { queue = service.queue ++ asked ∷ [] })
  pub silent : p.responses ≡ []

-- The identifier that the entries of a request give, all zeros where they give none.
abbrev pub parsed_id : Environment → List Entry → TransferType → List ℕ
parsed_id env entries type =
    let start : Message = record zero_message { type = type } in
    (parse_entries env 0 entries start (record { keys = none; values = none })).0.id

-- A request that is refused: the service is as it was. Exactly where the request gives an identifier that is not zero,
-- one report of that transfer is sent, with the code of an error.
pub record IsRefused (id : List ℕ) (type : TransferType) (before : Option Service) (p : Processed)
    : Type 0 where
  pub failed : p.result ≢ ok
  pub unchanged : p.service ≡ before
  pub reported :
      ((is_nil id ≡ true) × (p.responses ≡ []))
      ⊎ ((is_nil id ≡ false)
          × ((r : Response) × (p.responses ≡ r ∷ [])
              × (r.id ≡ id)
              × (r.type ≡ type)
              × (r.code ≢ no_error)))

-- The message that a request leaves has its identifier, or none where that is zero.
IsNamed : List ℕ → Message → Type 0
IsNamed id m = (is_nil id ≡ is_nil m.id) × ((is_nil id ≡ true) ⊎ (m.id ≡ id))

check_message-id :
    (env : Environment) (tmp msg : Message) (h : ParsedHeaders)
    → is_nil tmp.id ≡ false
    → (check_message env tmp h msg).1.id ≡ tmp.id
unfolding check_message finish_message
check_message-id env tmp msg h e = elim (Option-cases (headers_of env h)) [
  | inl n ↦ ground arith
  | inr (headers, p) ↦ ground arith
]

check_message-nil :
    (env : Environment) (tmp msg : Message) (h : ParsedHeaders)
    → is_nil tmp.id ≡ true
    → (check_message env tmp h msg).1 ≡ msg
unfolding check_message
check_message-nil env tmp msg h e = ground arith

msg_init-IsNamed :
    (env : Environment) (entries : List Entry) (type : TransferType)
    → IsNamed (parsed_id env entries type) (msg_init env entries type zero_message).1
unfolding msg_init IsNamed is_nil
msg_init-IsNamed env entries type =
    let start : Message = record zero_message { type = type } in
    let parsed = parse_entries env 0 entries start (record { keys = none; values = none }) in
    elim (Bool-cases (is_nil parsed.0.id)) [
      | inl p ↦ let e = check_message-nil env parsed.0 zero_message parsed.1 p in (rw e p, inl p)
      | inr p ↦ let e = check_message-id env parsed.0 zero_message parsed.1 p in (rw e refl, inr e)
    ]

fail_event-IsRefused :
    (id : List ℕ) (eres : EdgehogResult) (code : Errno) (type : TransferType) (msg : Message)
    (before : Option Service)
    → IsNamed id msg
    → eres ≢ ok
    → code ≢ no_error
    → IsRefused id type before (fail_event eres code type msg before)
unfolding IsNamed fail_event send_response response_code
fail_event-IsRefused id eres code type msg before (same, inl zero_id) n c = record {
  failed = n;
  unchanged = refl;
  reported = inl (zero_id, ground arith);
}
fail_event-IsRefused id eres code type msg before (same, inr e) n c =
    elim (Bool-cases (is_nil id)) [
      | inl p ↦ record { failed = n; unchanged = refl; reported = inl (p, ground arith) }
      | inr p ↦ record {
        failed = n;
        unchanged = refl;
        reported =
            inr (p, (send_response msg.id type code eres, ground arith, e, refl, ground arith));
      }
    ]

put_message_lem :
    (env : Environment) (queue_size : ℕ) (type : TransferType) (entries : List Entry)
    (before : Option Service) (id : List ℕ) (msg : Message)
    → IsNamed id msg
    → IsRequest env type entries msg
    → ft_is_running before ≡ true
    → let p = put_message queue_size type msg before in
      ((p.result ≡ ok) × IsQueued env queue_size type entries before p) ⊎ IsRefused id type before p
unfolding put_message ft_is_running
put_message_lem env queue_size type entries none id msg named request run = cc
put_message_lem env queue_size type entries (some s) id msg named request run =
    elim (Bool-cases (ltb (length s.queue) queue_size)) [
      | inl room ↦ inl (
        rw room refl,
        record {
          service = s;
          asked = msg;
          requested = request;
          started = refl;
          running = run;
          room = ground arith;
          queued = rw room refl;
          silent = rw room refl;
        },
      )
      | inr full ↦ inr (
          rw full (
            fail_event-IsRefused id file_transfer_queue_error epipe type msg (some s) named
              (λ e. cc) (λ e. cc)))
    ]

process_message_lem :
    (env : Environment) (queue_size : ℕ) (type : TransferType) (entries : List Entry)
    (before : Option Service) (r : EdgehogResult × Message)
    → IsNamed (parsed_id env entries type) r.1
    → (r.0 ≡ ok → IsRequest env type entries r.1)
    → let p = process_message queue_size type r before in
      ((p.result ≡ ok) × IsQueued env queue_size type entries before p)
      ⊎ IsRefused (parsed_id env entries type) type before p
unfolding process_message
process_message_lem env queue_size type entries before (eres, msg) named request =
    elim (Bool-cases (is_ok eres)) [
      | inr bad ↦ inr (
          rw bad (
            fail_event-IsRefused (parsed_id env entries type) eres epipe type msg before named
              (λ e. ground arith) (λ e. cc)))
      | inl good ↦ elim (Bool-cases (ft_is_running before)) [
        | inr idle ↦ inr (
            rw (good, idle)
              (fail_event-IsRefused (parsed_id env entries type) device_not_ready eagain type msg
                before named (λ e. cc) (λ e. cc)))
        | inl run ↦
            rw (good, run)
              (put_message_lem env queue_size type entries before (parsed_id env entries type) msg
                named (request (ground arith)) run)
      ]
    ]

-- A request of the server is queued or refused. Where it is queued, the result is a success, the service runs, its queue
-- had room and has the request at its end, and nothing is reported; the request is one that may be accepted. Where it is refused, the result is an error, the service is as it
-- was, and the server gets one report with an error's code exactly if the request names its transfer with an identifier that is not zero.
pub process_event-IsRefused :
    (env : Environment) (queue_size : ℕ) (type : TransferType) (entries : List Entry)
    (before : Option Service)
    → let p = process_event env queue_size type (some entries) before in
      ((p.result ≡ ok) × IsQueued env queue_size type entries before p)
      ⊎ IsRefused (parsed_id env entries type) type before p
unfolding process_event
process_event-IsRefused env queue_size type entries before =
    process_message_lem env queue_size type entries before (msg_init env entries type zero_message)
      (msg_init-IsNamed env entries type) (msg_init-IsRequest env entries type zero_message)
