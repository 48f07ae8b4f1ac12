-- ===== src/FileTransfer/Message/Parse.antt =====
-- The parsing of the entries of a request, lib/edgehog_device/file_transfer/utils.c.
use edgehog_zephyr_device.Prelude.{
  ℕ, ◌+◌, ◌==◌, Bool, true, false, not, ◌&&◌, List, [], ◌∷◌, ◌++◌, length, Option, none, some,
  if◌then◌else◌, bytes_eq, codes,
}
use edgehog_zephyr_device.FileTransfer.Message.Types.{
  TransferType, server_to_device, device_to_server, Encoding, no_encoding, lz4, tar, tar_lz4,
  unsupported_encoding, LocationType, filesystem, streaming, unsupported_location, Value, string,
  string_array, boolean, long_integer, Entry, Message, ParsedHeaders, Environment,
}

-- UUID_STR_LEN - 1
abbrev pub uuid_chars : ℕ
uuid_chars = 36

unfoldable pub parse_encoding_string : List ℕ → Encoding
parse_encoding_string s =
    if length s == 0
    then no_encoding
    else if bytes_eq s (codes "lz4")
    then lz4
    else if bytes_eq s (codes "tar")
    then tar
    else if bytes_eq s (codes "tar.lz4")
    then tar_lz4
    else unsupported_encoding

unfoldable pub parse_location_type_string : List ℕ → LocationType
parse_location_type_string s =
    if bytes_eq s (codes "filesystem")
    then filesystem
    else if bytes_eq s (codes "streaming")
    then streaming
    else unsupported_location

unfoldable pub is_server_to_device : TransferType → Bool
is_server_to_device server_to_device = true
is_server_to_device device_to_server = false

-- `loc_type_key` and `loc_key`
abbrev pub location_type_key : TransferType → List ℕ
location_type_key server_to_device = codes "destinationType"
location_type_key device_to_server = codes "sourceType"

abbrev pub location_key : TransferType → List ℕ
location_key server_to_device = codes "destination"
location_key device_to_server = codes "source"

-- `duplicate_string`
unfoldable pub duplicate_string : Bool → List ℕ → Option (List ℕ)
duplicate_string works s = if works then some s else none

-- `parse_endpoint_value` for an entry with a string; `works` is the outcome of its copy.
unfoldable pub parse_string : Environment → Bool → List ℕ → List ℕ → Message → Message
parse_string env works path s m =
    if bytes_eq path (codes "id")
    then (if length s == uuid_chars then record m { id = env.uuid_from_string s m.id } else m)
    else if bytes_eq path (codes "url")
    then record m { url = duplicate_string works s }
    else if bytes_eq path (codes "encoding")
    then record m { encoding = parse_encoding_string s }
    else if bytes_eq path (codes "digest")
    then record m { digest = duplicate_string works s }
    else if bytes_eq path (location_type_key m.type)
    then record m { location_type = parse_location_type_string s }
    else if bytes_eq path (location_key m.type)
    then record m { location = duplicate_string works s }
    else m

-- `parse_endpoint_value`: each entry goes to the message or to the headers.
unfoldable pub parse_value : Environment → Bool → List ℕ → Value → Message → Message
parse_value env works path (string s) m = parse_string env works path s m
parse_value env works path (boolean b) m =
    if bytes_eq path (codes "progress") then record m { progress = b } else m
parse_value env works path (long_integer n) m =
    if is_server_to_device m.type && bytes_eq path (codes "fileSizeBytes")
    then record m { file_size_bytes = n }
    else m
parse_value env works path _ m = m

unfoldable pub parse_headers : List ℕ → Value → ParsedHeaders → ParsedHeaders
parse_headers path (string_array ss) h =
    if bytes_eq path (codes "httpHeaderKeys")
    then record h { keys = some ss }
    else if bytes_eq path (codes "httpHeaderValues")
    then record h { values = some ss }
    else h
parse_headers path _ h = h

-- The loop over the entries, from the i-th one on.
unfoldable pub parse_entries :
    Environment → ℕ → List Entry → Message → ParsedHeaders → Message × ParsedHeaders
parse_entries env i [] m h = (m, h)
parse_entries env i (e ∷ entries) m h =
    parse_entries env (i + 1) entries (parse_value env (env.copy_works i) e.path e.value m)
      (parse_headers e.path e.value h)

-- "%s: %s\r\n"
unfoldable pub header_line : List ℕ → List ℕ → List ℕ
header_line key value = key ++ (codes ": " ++ (value ++ 13 ∷ 10 ∷ []))

-- The loop of `serialize_http_headers`, from the i-th header on.
unfoldable pub serialize_lines :
    Environment → ℕ → List (Option (List ℕ)) → List (Option (List ℕ)) → Option (List (List ℕ))
serialize_lines env i [] [] = some []
serialize_lines env i (some k ∷ keys) (some v ∷ values) =
    let line = header_line k v in
    let rest = serialize_lines env (i + 1) keys values in
    if env.header_works i then prepend line rest else none
  where
    prepend : List ℕ → Option (List (List ℕ)) → Option (List (List ℕ))
    prepend line none = none
    prepend line (some lines) = some (line ∷ lines)
serialize_lines env i _ _ = none

unfoldable pub serialize_http_headers :
    Environment → List (Option (List ℕ)) → List (Option (List ℕ)) → Option (List (List ℕ))
serialize_http_headers env keys values =
    if not (length keys == length values)
    then none
    else if not env.headers_work
    then none
    else serialize_lines env 0 keys values
