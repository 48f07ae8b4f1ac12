-- ===== src/Http/Payload.antt =====
-- The upload of a payload in lib/edgehog_device/http.c: `send_buffer_fully` and `put_payload_cbk`.
use edgehog_zephyr_device.Prelude.{
  ℕ, zero, suc, ◌+◌, ◌%◌, ◌^◌, leb, ◌≤◌, ◌≡◌, Bool, List, [], ◌∷◌, ◌++◌, length, take, drop, Option,
  none, some, ℤ, pos, negsuc, if◌then◌else◌,
}
use edgehog_zephyr_device.Result.{EdgehogResult, is_ok, http_request_error}
use edgehog_zephyr_device.Http.Response.{Context}

-- `zsock_send`: the number of bytes that it takes from the front of a buffer, or a failure, which is
-- 0 or negative; and the bytes that a socket has taken so far.
pub record Transport : Type 1 where
  pub Sock : Type 0
  pub send : List ℕ → Sock → ℤ × Sock
  pub wire : Sock → List ℕ
  pub send_wire :
      (buf : List ℕ) (s : Sock) (k : ℕ)
      → (send buf s).0 ≡ pos (suc k)
      → (suc k ≤ length buf) × (wire (send buf s).1 ≡ wire s ++ take (suc k) buf)

-- The bits of an `int`, whose sums wrap at 2 ^ 32, where C itself leaves them open. The upper half is
-- negative.
unfoldable pub add_int : ℕ → ℕ → ℕ
add_int a b = (a + b) % 2 ^ 32

unfoldable pub is_negative_int : ℕ → Bool
is_negative_int a = leb (2 ^ 31) a

-- `edgehog_http_payload_chunk_t`
pub record PayloadChunk : Type 0 where
  pub bytes : List ℕ
  pub last_chunk : Bool

-- What the loop does with a result of `zsock_send`.
pub data Sent : Type 0 where
  taken : ℕ → Sent
  refused : Sent

unfoldable pub sent_of : ℤ → Sent
sent_of (pos zero) = refused
sent_of (pos (suc k)) = taken (suc k)
sent_of (negsuc n) = refused

module _ (T : Transport) where
  -- `send_buffer_fully`, with the bytes that are left and the bits of the count so far; `none` where
  -- the fuel runs out, and a count of `none` for -1. The comparison with the length is one of `size_t`,
  -- so that it ends with the bytes.
  unfoldable pub send_loop :
      ℕ → List ℕ → ℕ → Transport.Sock T → Option (Option ℕ × Transport.Sock T)
  send_loop zero buf sent s = none
  send_loop (suc n) [] sent s = some (some sent, s)
  send_loop (suc n) (b ∷ buf) sent s = elim (sent_of (Transport.send T (b ∷ buf) s).0) [
    | refused ↦ some (none, (Transport.send T (b ∷ buf) s).1)
    | taken k ↦ send_loop n (drop k (b ∷ buf)) (add_int sent k) (Transport.send T (b ∷ buf) s).1
  ]

  -- Each round takes a byte at least.
  unfoldable pub send_buffer_fully :
      List ℕ → Transport.Sock T → Option (Option ℕ × Transport.Sock T)
  send_buffer_fully buf s = send_loop (suc (length buf)) buf 0 s

  module _ {U : Type 0} (payload_cbk : U → EdgehogResult × PayloadChunk × U) where
    -- A chunk is sent, where it has bytes.
    unfoldable pub send_chunk : List ℕ → Transport.Sock T → Option (Option ℕ × Transport.Sock T)
    send_chunk [] s = some (some 0, s)
    send_chunk (b ∷ bytes) s = send_buffer_fully (b ∷ bytes) s

    -- `put_payload_cbk`, on fuel for the chunks of the user: the bits of the count of the bytes sent, or
    -- `none` for -EIO.
    unfoldable pub put_payload :
        ℕ → ℕ → Context U → Transport.Sock T → Option (Option ℕ × Context U × Transport.Sock T)
    put_payload zero total ctx s = none
    put_payload (suc n) total ctx s =
        let (result, chunk, user) = payload_cbk ctx.user in
        let ctx' : Context U = record { result = result; user = user } in
        let failed : Context U = record { result = http_request_error; user = user } in
        let next : Option (Option ℕ × Context U × Transport.Sock T) =
          elim (send_chunk chunk.bytes s) [
            | none ↦ none
            | some (none, s') ↦ some (none, failed, s')
            | some (some sent, s') ↦
                let more = put_payload n (add_int total sent) ctx' s' in
                if is_negative_int sent
                then some (none, failed, s')
                else if chunk.last_chunk
                then some (some (add_int total sent), ctx', s')
                else more
          ] in
        if is_ok result then next else some (none, ctx', s)
