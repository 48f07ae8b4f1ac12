-- ===== src/Http/Response.antt =====
-- The response callbacks of lib/edgehog_device/http.c, and the calls that the HTTP library of the
-- operating system makes of them.
use edgehog_zephyr_device.Prelude.{
  ℕ, ltb, leb, Bool, true, false, ◌||◌, List, [], ◌∷◌, if◌then◌else◌,
}
use edgehog_zephyr_device.Result.{EdgehogResult, is_ok, http_request_error}

-- `struct http_response` with the final flag: the fields that the callbacks read.
pub record HttpResponse : Type 0 where
  pub status_code : ℕ
  pub body_found : Bool
  pub body_frag : List ℕ
  pub content_length : ℕ
  pub final : Bool

-- `edgehog_http_response_chunk_t`
pub record Chunk : Type 0 where
  pub bytes : List ℕ
  pub response_size : ℕ
  pub last_chunk : Bool

-- `struct request_cbk_ctx`: the result so far and the user's data.
pub record Context (U : Type 0) : Type 0 where
  pub result : EdgehogResult
  pub user : U

-- Outside of 200 to 299.
unfoldable pub is_failure_status : ℕ → Bool
is_failure_status code = ltb code 200 || leb 300 code

unfoldable pub chunk_of : HttpResponse → Chunk
chunk_of rsp = record {
  bytes = if rsp.body_found then rsp.body_frag else [];
  response_size = rsp.content_length;
  last_chunk = rsp.final;
}

module _ {U : Type 0} (response_cbk : Chunk → U → EdgehogResult × U) where
  -- `get_response_cbk`: true for its 0.
  unfoldable pub get_response_cbk : HttpResponse → Context U → Bool × Context U
  get_response_cbk rsp ctx =
      let (result, user) = response_cbk (chunk_of rsp) ctx.user in
      if is_failure_status rsp.status_code
      then (false, record ctx { result = http_request_error })
      else (is_ok result, record { result = result; user = user })

  -- `http_client_req` of the operating system hands over the response in fragments, until a callback
  -- fails.
  unfoldable pub deliver : List HttpResponse → Context U → Bool × Context U
  deliver [] ctx = (true, ctx)
  deliver (rsp ∷ rest) ctx =
      let (good, ctx') = get_response_cbk rsp ctx in
      let later = deliver rest ctx' in if good then later else (false, ctx')

-- `put_response_cbk`
unfoldable pub put_response_cbk : {U : Type 0} → HttpResponse → Context U → Bool × Context U
put_response_cbk rsp ctx =
    if is_failure_status rsp.status_code
    then (false, record ctx { result = http_request_error })
    else (true, ctx)
