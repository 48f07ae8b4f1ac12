-- ===== src/Http/Tests.antt =====
-- The HTTP client of lib/edgehog_device/http.c at concrete inputs: a socket that takes two bytes at
-- once, and a request whose second address answers.
use edgehog_zephyr_device.Prelude.{
  ℕ, suc, ◌≤◌, ◌≡◌, refl, Bool, true, false, List, [], ◌∷◌, ◌++◌, length, take, some, ℤ, pos,
  negsuc, codes, arith,
}
use edgehog_zephyr_device.Result.{EdgehogResult, ok}
use edgehog_zephyr_device.Http.Response.{Context}
use edgehog_zephyr_device.Http.Payload.{Transport, PayloadChunk}
use edgehog_zephyr_device.Http.Request.{Held, RequestCalls, perform_request}
use edgehog_zephyr_device.Http.Released.{perform_request-held}

-- `zsock_send` that takes at most two bytes.
unfoldable send_two : List ℕ → List ℕ → ℤ × List ℕ
send_two [] s = (negsuc 0, s)
send_two (a ∷ []) s = (pos 1, s ++ a ∷ [])
send_two (a ∷ b ∷ rest) s = (pos 2, s ++ a ∷ b ∷ [])

send_two_wire :
    (buf s : List ℕ) (k : ℕ)
    → (send_two buf s).0 ≡ pos (suc k)
    → (suc k ≤ length buf) × ((send_two buf s).1 ≡ s ++ take (suc k) buf)
unfolding send_two
send_two_wire [] s k e = cc
send_two_wire (a ∷ []) s k e = let same : k ≡ 0 = ground arith in rw same (omega arith, refl)
send_two_wire (a ∷ b ∷ rest) s k e = let same : k ≡ 1 = ground arith in rw same (omega arith, refl)

abbrev narrow_socket : Transport
narrow_socket = record { Sock = List ℕ; send = send_two; wire = λ s. s; send_wire = send_two_wire }

-- A payload of two chunks.
abbrev two_chunks : Bool → EdgehogResult × PayloadChunk × Bool
two_chunks false = (ok, record { bytes = codes "abc"; last_chunk = false }, true)
two_chunks true = (ok, record { bytes = codes "de"; last_chunk = true }, true)

abbrev start : Context Bool
start = record { result = ok; user = false }

abbrev calls : RequestCalls
calls = record {
  parsed = some (record {
    host_off = 8;
    host_len = 4;
    path_off = 12;
    path_len = 2;
    query_off = 0;
    query_len = 0;
    has_query = false;
    port = 0;
  });
  host_print = true;
  port_print = true;
  addresses = some (
      record { socket = true; sec_tags = true; hostname = true; connect = false }
      ∷ record { socket = true; sec_tags = true; hostname = true; connect = true }
      ∷ []);
  path_malloc = true;
  path_print = true;
  query_print = true;
  recv_malloc = true;
}

abbrev nothing_held : Held
nothing_held = record { sockets = 0; blocks = 0 }

perform_request-held_example :
    (perform_request {U = Bool} (λ ctx. (true, ctx)) true calls start nothing_held).2 ≡ nothing_held
perform_request-held_example =
    perform_request-held (λ ctx. (true, ctx)) true calls start nothing_held
