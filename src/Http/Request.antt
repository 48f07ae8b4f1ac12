-- ===== src/Http/Request.antt =====
-- The requests of lib/edgehog_device/http.c: `create_and_connect_socket`, `perform_request`,
-- `edgehog_http_get` and `edgehog_http_put`, with the sockets and the memory that they hold.
use edgehog_zephyr_device.Prelude.{
  ℕ, ◌+◌, ◌-◌, ◌==◌, Bool, true, false, not, ◌&&◌, ◌||◌, List, [], ◌∷◌, take, Option, none, some,
  bytes_eq, codes, if◌then◌else◌,
}
use edgehog_zephyr_device.Result.{
  EdgehogResult, ok, is_ok, out_of_memory, network_error, http_request_error, parse_url_error,
  http_request_invalid_headers,
}
use edgehog_zephyr_device.Http.Response.{HttpResponse, Chunk, Context, deliver}
use edgehog_zephyr_device.Http.Path.{ParsedUrl}

-- Open sockets, and blocks of memory not yet freed.
pub record Held : Type 0 where
  pub sockets : ℕ
  pub blocks : ℕ

unfoldable pub open_socket : Held → Held
open_socket h = record h { sockets = h.sockets + 1 }

unfoldable pub close_socket : Held → Held
close_socket h = record h { sockets = h.sockets - 1 }

unfoldable pub allocate : Held → Held
allocate h = record h { blocks = h.blocks + 1 }

unfoldable pub free : Held → Held
free h = record h { blocks = h.blocks - 1 }

-- The outcomes of the calls for one resolved address. Without TLS the two options are not set.
pub record Address : Type 0 where
  pub socket : Bool
  pub sec_tags : Bool
  pub hostname : Bool
  pub connect : Bool

-- What follows an address: the next one, without a socket to close or with one, or the end.
unfoldable pub connect_step : Bool → Address → Bool × Held → Bool × Held → Bool × Held → Bool × Held
connect_step tls a skip next connected =
    if not a.socket
    then skip
    else if tls && not a.sec_tags
    then next
    else if tls && not a.hostname
    then next
    else if not a.connect
    then next
    else connected

-- The loop over the addresses: whether a socket is connected, which stays open then.
unfoldable pub connect_loop : Bool → List Address → Held → Bool × Held
connect_loop tls [] h = (false, h)
connect_loop tls (a ∷ addresses) h =
    let opened = open_socket h in
    let skip = connect_loop tls addresses h in
    let next = connect_loop tls addresses (close_socket opened) in
    connect_step tls a skip next (true, opened)

-- The outcomes of the calls of a request. `addresses` is `none` where the name is not resolved; the
-- prints are those of the host, the port, the path and the query.
pub record RequestCalls : Type 0 where
  pub parsed : Option ParsedUrl
  pub host_print : Bool
  pub port_print : Bool
  pub addresses : Option (List Address)
  pub path_malloc : Bool
  pub path_print : Bool
  pub query_print : Bool
  pub recv_malloc : Bool

-- `create_and_connect_socket`; the list of addresses is a block of memory.
unfoldable pub create_and_connect_socket : Bool → Option (List Address) → Held → Bool × Held
create_and_connect_socket tls none h = (false, h)
create_and_connect_socket tls (some addresses) h =
    let (connected, h') = connect_loop tls addresses (allocate h) in (connected, free h')

-- `build_full_path` with its failures; its buffer is held where it succeeds.
unfoldable pub allocate_path : RequestCalls → ParsedUrl → Held → EdgehogResult × Held
allocate_path calls p h =
    let h' = allocate h in
    if not calls.path_malloc
    then (out_of_memory, h)
    else if not calls.path_print
    then (parse_url_error, free h')
    else if p.has_query && not calls.query_print
    then (parse_url_error, free h')
    else (ok, h')

module _ {U : Type 0} (run : Context U → Bool × Context U) where
  -- The request itself: `run` is `http_client_req`, true where it does not return a negative number.
  unfoldable pub run_request : Context U → EdgehogResult × Context U
  run_request ctx =
      let (good, ctx') = run ctx in
      if not good
      then (http_request_error, ctx')
      else if not (is_ok ctx'.result)
      then (ctx'.result, ctx')
      else (ok, ctx')

  -- `perform_request` once the path is built.
  unfoldable pub with_path : RequestCalls → Context U → Held → EdgehogResult × Context U × Held
  with_path calls ctx h =
      let (result, ctx') = run_request ctx in
      let released = free (free (close_socket (allocate h))) in
      if not calls.recv_malloc
      then (out_of_memory, ctx, close_socket (free h))
      else (result, ctx', released)

  -- `perform_request` once the socket is connected.
  unfoldable pub with_socket :
      RequestCalls → ParsedUrl → Context U → Held → EdgehogResult × Context U × Held
  with_socket calls p ctx h =
      let (result, h') = allocate_path calls p h in
      if not (is_ok result) then (result, ctx, close_socket h') else with_path calls ctx h'

  -- `perform_request` with a URL that is parsed.
  unfoldable pub with_url :
      Bool → RequestCalls → ParsedUrl → Context U → Held → EdgehogResult × Context U × Held
  with_url tls calls p ctx h =
      let (connected, h') = create_and_connect_socket tls calls.addresses h in
      if not calls.host_print
      then (parse_url_error, ctx, h)
      else if not (p.port == 0) && not calls.port_print
      then (parse_url_error, ctx, h)
      else if not connected
      then (network_error, ctx, h')
      else with_socket calls p ctx h'

  unfoldable pub perform_parsed :
      Bool → RequestCalls → Option ParsedUrl → Context U → Held → EdgehogResult × Context U × Held
  perform_parsed tls calls none ctx h = (parse_url_error, ctx, h)
  perform_parsed tls calls (some p) ctx h = with_url tls calls p ctx h

  unfoldable pub perform_request :
      Bool → RequestCalls → Context U → Held → EdgehogResult × Context U × Held
  perform_request tls calls ctx h = perform_parsed tls calls calls.parsed ctx h

-- `http_client_req` of a GET: the fragments of the response, unless the client fails by itself.
unfoldable pub get_client :
    {U : Type 0}
    → (Chunk → U → EdgehogResult × U)
    → List HttpResponse
    → Bool
    → Context U
    → Bool × Context U
get_client cbk responses failed ctx =
    let (good, ctx') = deliver cbk responses ctx in (good && not failed, ctx')

-- `edgehog_http_get`
unfoldable pub http_get :
    {U : Type 0}
    → (Chunk → U → EdgehogResult × U)
    → Bool
    → RequestCalls
    → List HttpResponse
    → Bool
    → U
    → Held
    → EdgehogResult × Context U × Held
http_get cbk tls calls responses failed user h =
    perform_request (get_client cbk responses failed) tls calls
      (record { result = ok; user = user }) h

-- `strncmp(header, "Content-Length: ", 16) == 0`
unfoldable pub is_content_length : List ℕ → Bool
is_content_length header = bytes_eq (take 16 header) (codes "Content-Length: ")

unfoldable pub any_content_length : List (List ℕ) → Bool
any_content_length [] = false
any_content_length (header ∷ headers) = is_content_length header || any_content_length headers

-- `edgehog_http_put`; a request without headers has an empty list.
unfoldable pub http_put :
    {U : Type 0}
    → (Context U → Bool × Context U)
    → Bool
    → RequestCalls
    → List (List ℕ)
    → U
    → Held
    → EdgehogResult × Context U × Held
http_put {U} run tls calls headers user h =
    let ctx : Context U = record { result = ok; user = user } in
    if any_content_length headers
    then (http_request_invalid_headers, ctx, h)
    else perform_request run tls calls ctx h
