-- ===== src/Http/Released.antt =====
-- What a request of lib/edgehog_device/http.c holds at its end, and what its success means.
use edgehog_zephyr_device.Prelude.{
  ◌+◌, ◌≡◌, refl, ◌∙◌, Bool, true, false, not, ◌&&◌, List, [], ◌∷◌, Option, none, some, Bool-cases,
  inl, inr, subst, if_true, if_false, if◌then◌else◌, arith,
}
use edgehog_zephyr_device.Result.{EdgehogResult, ok, is_ok}
use edgehog_zephyr_device.Http.Response.{
  HttpResponse, Chunk, Context, is_failure_status, chunk_of, get_response_cbk, deliver,
}
use edgehog_zephyr_device.Http.Path.{ParsedUrl}
use edgehog_zephyr_device.Http.Request.{
  Held, open_socket, close_socket, allocate, free, Address, connect_step, connect_loop,
  RequestCalls, create_and_connect_socket, allocate_path, run_request, with_path, with_socket,
  with_url, perform_parsed, perform_request, get_client, http_get,
}

-- A socket more where the connection works, and nothing else.
abbrev holds_socket : Bool → Held → Held
holds_socket connected h = if connected then record h { sockets = h.sockets + 1 } else h

abbrev Holds : Held → Bool × Held → Type 0
Holds h r = r.1 ≡ holds_socket r.0 h

closed : (h : Held) → close_socket (open_socket h) ≡ h
unfolding open_socket close_socket
closed h = ground arith

freed : (h : Held) → free (allocate h) ≡ h
unfolding allocate free
freed h = ground arith

connect_step-Holds :
    (P : Bool × Held → Type 0) (tls : Bool) (a : Address) (skip next connected : Bool × Held)
    → P skip
    → P next
    → P connected
    → P (connect_step tls a skip next connected)
unfolding connect_step
connect_step-Holds P tls a skip next connected s n c = elim (Bool-cases a.socket) [
  | inr e ↦ rw e s
  | inl e ↦ elim (Bool-cases (tls && not a.sec_tags)) [
    | inl f ↦ rw (e, f) n
    | inr f ↦ elim (Bool-cases (tls && not a.hostname)) [
      | inl g ↦ rw (e, f, g) n
      | inr g ↦ elim (Bool-cases a.connect) [
        | inr k ↦ rw (e, f, g, k) n
        | inl k ↦ rw (e, f, g, k) c
      ]
    ]
  ]
]

connect_loop-Holds :
    (tls : Bool) (addresses : List Address) (h : Held) → Holds h (connect_loop tls addresses h)
unfolding connect_loop
connect_loop-Holds tls [] h = refl
connect_loop-Holds tls (a ∷ addresses) h =
    let skipped = connect_loop-Holds tls addresses h in
    connect_step-Holds (Holds h) tls a (connect_loop tls addresses h)
      (connect_loop tls addresses (close_socket (open_socket h))) (true, open_socket h) skipped
      (rw (closed h) skipped) (unfold open_socket in refl)

create_and_connect_socket-Holds :
    (tls : Bool) (addresses : Option (List Address)) (h : Held)
    → Holds h (create_and_connect_socket tls addresses h)
unfolding create_and_connect_socket allocate free
create_and_connect_socket-Holds tls none h = refl
create_and_connect_socket-Holds tls (some addresses) h =
    let r = connect_loop-Holds tls addresses (allocate h) in
    elim (Bool-cases (connect_loop tls addresses (allocate h)).0) [
      | inl e ↦ ground (arith, r)
      | inr e ↦ ground (arith, r)
    ]

-- A buffer more where the path is built, and nothing else.
abbrev holds_block : EdgehogResult → Held → Held
holds_block result h = if is_ok result then record h { blocks = h.blocks + 1 } else h

allocate_path-holds :
    (calls : RequestCalls) (p : ParsedUrl) (h : Held)
    → let r = allocate_path calls p h in r.1 ≡ holds_block r.0 h
unfolding allocate_path allocate free
allocate_path-holds calls p h = ground arith

module _ {U : Type 0} (run : Context U → Bool × Context U) where
  with_path-held :
      (calls : RequestCalls) (ctx : Context U) (h : Held)
      → (with_path run calls ctx (allocate (open_socket h))).2 ≡ h
  unfolding with_path allocate free open_socket close_socket
  with_path-held calls ctx h = ground arith

  with_socket-held :
      (calls : RequestCalls) (p : ParsedUrl) (ctx : Context U) (h : Held)
      → (with_socket run calls p ctx (open_socket h)).2 ≡ h
  unfolding with_socket allocate
  with_socket-held calls p ctx h =
      let r = allocate_path calls p (open_socket h) in
      let e : r.1 ≡ holds_block r.0 (open_socket h) = allocate_path-holds calls p (open_socket h) in
      elim (Bool-cases (is_ok r.0)) [
        | inl good ↦
            let built : r.1 ≡ allocate (open_socket h) =
              e ∙ if_true (is_ok r.0) (allocate (open_socket h)) (open_socket h) good in
            rw (good, built) (with_path-held calls ctx h)
        | inr bad ↦
            let kept : r.1 ≡ open_socket h =
              e ∙ if_false (is_ok r.0) (allocate (open_socket h)) (open_socket h) bad in
            rw (bad, kept) (closed h)
      ]

  with_url-held :
      (tls : Bool) (calls : RequestCalls) (p : ParsedUrl) (ctx : Context U) (h : Held)
      → (with_url run tls calls p ctx h).2 ≡ h
  unfolding with_url open_socket
  with_url-held tls calls p ctx h =
      let r = create_and_connect_socket tls calls.addresses h in
      let e : Holds h r = create_and_connect_socket-Holds tls calls.addresses h in
      elim (Bool-cases r.0) [
        | inl good ↦
            let opened : r.1 ≡ open_socket h = e ∙ if_true r.0 (open_socket h) h good in
            let used = with_socket-held calls p ctx h in rw (good, opened) (ground (arith, used))
        | inr bad ↦
            let kept : r.1 ≡ h = e ∙ if_false r.0 (open_socket h) h bad in
            rw (bad, kept) (ground arith)
      ]

  perform_parsed-held :
      (tls : Bool) (calls : RequestCalls) (parsed : Option ParsedUrl) (ctx : Context U) (h : Held)
      → (perform_parsed run tls calls parsed ctx h).2 ≡ h
  unfolding perform_parsed
  perform_parsed-held tls calls none ctx h = refl
  perform_parsed-held tls calls (some p) ctx h = with_url-held tls calls p ctx h

  -- On every path of a request, whichever call fails, each socket that it opened is closed again and each
  -- block of memory that it allocated is freed.
  pub perform_request-held :
      (tls : Bool) (calls : RequestCalls) (ctx : Context U) (h : Held)
      → (perform_request run tls calls ctx h).2 ≡ h
  unfolding perform_request
  perform_request-held tls calls ctx h = perform_parsed-held tls calls calls.parsed ctx h

  -- The request has run without an error.
  abbrev HasRun : Context U → EdgehogResult × Context U × Held → Type 0
  HasRun ctx r = (r.1 ≡ (run ctx).1) × ((run ctx).0 ≡ true) × ((run ctx).1.result ≡ ok)

  with_path-HasRun :
      (calls : RequestCalls) (ctx : Context U) (h : Held)
      → (with_path run calls ctx h).0 ≡ ok
      → HasRun ctx (with_path run calls ctx h)
  unfolding with_path run_request
  with_path-HasRun calls ctx h e = ground arith

  with_socket-HasRun :
      (calls : RequestCalls) (p : ParsedUrl) (ctx : Context U) (h : Held)
      → (with_socket run calls p ctx h).0 ≡ ok
      → HasRun ctx (with_socket run calls p ctx h)
  unfolding with_socket
  with_socket-HasRun calls p ctx h e = elim (Bool-cases (is_ok (allocate_path calls p h).0)) [
    | inl good ↦ rw good (with_path-HasRun calls ctx (allocate_path calls p h).1 (rw good at e))
    | inr bad ↦ absurd (ground arith)
  ]

  with_url-HasRun :
      (tls : Bool) (calls : RequestCalls) (p : ParsedUrl) (ctx : Context U) (h : Held)
      → (with_url run tls calls p ctx h).0 ≡ ok
      → HasRun ctx (with_url run tls calls p ctx h)
  unfolding with_url
  with_url-HasRun tls calls p ctx h e =
      ground
        (arith, with_socket-HasRun calls p ctx (create_and_connect_socket tls calls.addresses h).1)

  perform_parsed-HasRun :
      (tls : Bool) (calls : RequestCalls) (parsed : Option ParsedUrl) (ctx : Context U) (h : Held)
      → (perform_parsed run tls calls parsed ctx h).0 ≡ ok
      → HasRun ctx (perform_parsed run tls calls parsed ctx h)
  unfolding perform_parsed
  perform_parsed-HasRun tls calls none ctx h e = cc
  perform_parsed-HasRun tls calls (some p) ctx h e = with_url-HasRun tls calls p ctx h e

  -- A request that succeeds has run.
  perform_request-HasRun :
      (tls : Bool) (calls : RequestCalls) (ctx : Context U) (h : Held)
      → (perform_request run tls calls ctx h).0 ≡ ok
      → HasRun ctx (perform_request run tls calls ctx h)
  unfolding perform_request
  perform_request-HasRun tls calls ctx h e = perform_parsed-HasRun tls calls calls.parsed ctx h e

-- Every fragment has a status of success, and the user's callback accepts it.
abbrev pub Accepts :
    {U : Type 0} → (Chunk → U → EdgehogResult × U) → List HttpResponse → U → U → Type 0
Accepts cbk [] u v = u ≡ v
Accepts cbk (rsp ∷ rest) u v =
    (is_failure_status rsp.status_code ≡ false)
    × ((cbk (chunk_of rsp) u).0 ≡ ok)
    × Accepts cbk rest (cbk (chunk_of rsp) u).1 v

module _ {U : Type 0} (cbk : Chunk → U → EdgehogResult × U) where
  accepted_response :
      (rsp : HttpResponse) (ctx : Context U)
      → (get_response_cbk cbk rsp ctx).0 ≡ true
      → (is_failure_status rsp.status_code ≡ false)
        × ((cbk (chunk_of rsp) ctx.user).0 ≡ ok)
        × ((get_response_cbk cbk rsp ctx).1.user ≡ (cbk (chunk_of rsp) ctx.user).1)
  unfolding get_response_cbk
  accepted_response rsp ctx h = elim (Bool-cases (is_failure_status rsp.status_code)) [
    | inl bad ↦ absurd (ground arith)
    | inr fine ↦ (fine, ground arith, rw fine refl)
  ]

  deliver-Accepts :
      (responses : List HttpResponse) (ctx : Context U)
      → (deliver cbk responses ctx).0 ≡ true
      → Accepts cbk responses ctx.user (deliver cbk responses ctx).1.user
  unfolding deliver
  deliver-Accepts [] ctx h = refl
  deliver-Accepts (rsp ∷ rest) ctx h = elim (Bool-cases (get_response_cbk cbk rsp ctx).0) [
    | inr bad ↦ absurd (ground arith)
    | inl good ↦
        let (status, accepted, user) = accepted_response rsp ctx good in
        let next = (get_response_cbk cbk rsp ctx).1 in
        let later = deliver-Accepts rest next (rw good at h) in
        (
          status,
          accepted,
          rw good (subst (λ u. Accepts cbk rest u (deliver cbk rest next).1.user) user later),
        )
  ]

  client_delivers :
      (responses : List HttpResponse) (failed : Bool) (ctx : Context U)
      → (get_client cbk responses failed ctx).0 ≡ true
      → Accepts cbk responses ctx.user (get_client cbk responses failed ctx).1.user
  unfolding get_client
  client_delivers responses failed ctx h = deliver-Accepts responses ctx (ground arith)

  -- Where a GET succeeds, the whole response was delivered: every fragment has a status of success
  -- and was accepted by the user's callback, and the user's data are what the callbacks left.
  pub http_get-Accepts :
      (tls : Bool) (calls : RequestCalls) (responses : List HttpResponse) (failed : Bool) (u : U)
      (h : Held)
      → (http_get cbk tls calls responses failed u h).0 ≡ ok
      → Accepts cbk responses u (http_get cbk tls calls responses failed u h).1.user
  unfolding http_get
  http_get-Accepts tls calls responses failed u h e =
      let ctx : Context U = record { result = ok; user = u } in
      let (same, ran, good) =
        perform_request-HasRun (get_client cbk responses failed) tls calls ctx h e in
      rw same (client_delivers responses failed ctx ran)
