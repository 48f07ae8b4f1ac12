-- ===== src/FileTransfer/Message/Init.antt =====
-- `edgehog_ft_msg_init` of lib/edgehog_device/file_transfer/utils.c.
use edgehog_zephyr_device.Prelude.{
  ℕ, Bool, true, false, not, ◌&&◌, ◌||◌, List, Option, none, some, if◌then◌else◌,
}
use edgehog_zephyr_device.Result.{EdgehogResult, ok, file_transfer_invalid_request}
use edgehog_zephyr_device.FileTransfer.Message.Types.{
  TransferType, Encoding, no_encoding, lz4, tar, LocationType, streaming, unsupported_location,
  Entry, Message, zero_message, is_nil, ParsedHeaders, Environment,
}
use edgehog_zephyr_device.FileTransfer.Message.Parse.{
  is_server_to_device, parse_entries, serialize_http_headers,
}

unfoldable pub is_given : Option (List ℕ) → Bool
is_given none = false
is_given (some s) = true

unfoldable pub is_unsupported : LocationType → Bool
is_unsupported unsupported_location = true
is_unsupported _ = false

unfoldable pub is_streaming : LocationType → Bool
is_streaming streaming = true
is_streaming _ = false

-- The encodings of the build.
unfoldable pub is_known_encoding : Environment → Encoding → Bool
is_known_encoding env no_encoding = true
is_known_encoding env lz4 = env.compression
is_known_encoding env tar = env.tar_support
is_known_encoding env _ = false

-- The combinations that are refused.
unfoldable pub is_refused : TransferType → Encoding → LocationType → Bool
is_refused type lz4 location_type = not (is_server_to_device type)
is_refused type tar location_type = is_streaming location_type
is_refused type _ location_type = false

-- The headers of the message; `none` where their serialization fails.
unfoldable pub headers_of : Environment → ParsedHeaders → Option (Option (List (List ℕ)))
headers_of env h = both h.keys h.values
  where
    wrap : Option (List (List ℕ)) → Option (Option (List (List ℕ)))
    wrap none = none
    wrap (some lines) = some (some lines)

    both :
        Option (List (Option (List ℕ)))
        → Option (List (Option (List ℕ)))
        → Option (Option (List (List ℕ)))
    both (some keys) (some values) = wrap (serialize_http_headers env keys values)
    both _ _ = some none

-- The tests behind the headers.
unfoldable pub finish_message :
    Environment → Message → Message → Option (Option (List (List ℕ))) → EdgehogResult × Message
finish_message env tmp msg none = (file_transfer_invalid_request, msg)
finish_message env tmp msg (some headers) =
    if not (is_known_encoding env tmp.encoding)
    then (file_transfer_invalid_request, msg)
    else if is_refused tmp.type tmp.encoding tmp.location_type
    then (file_transfer_invalid_request, msg)
    else (ok, record tmp { http_headers = headers })

-- The tests of a parsed request, with the message that the caller gave.
unfoldable pub check_message :
    Environment → Message → ParsedHeaders → Message → EdgehogResult × Message
check_message env tmp h msg =
    let named : Message = record msg { id = tmp.id } in
    if is_nil tmp.id
    then (file_transfer_invalid_request, msg)
    else if not (is_given tmp.url)
        || is_unsupported tmp.location_type
        || not (is_given tmp.location)
    then (file_transfer_invalid_request, named)
    else if is_server_to_device tmp.type && not (is_given tmp.digest)
    then (file_transfer_invalid_request, named)
    else finish_message env tmp named (headers_of env h)

unfoldable pub msg_init :
    Environment → List Entry → TransferType → Message → EdgehogResult × Message
msg_init env entries type msg =
    let start : Message = record zero_message { type = type } in
    let (tmp, h) = parse_entries env 0 entries start (record { keys = none; values = none }) in
    check_message env tmp h msg
