-- ===== src/FileTransfer/Message/Accepted.antt =====
-- What an accepted request holds, and what a refused one leaves for the report of its failure
-- (lib/edgehog_device/file_transfer/utils.c).
use edgehog_zephyr_device.Prelude.{
  ℕ, ◌==◌, ◌≡◌, ◌≢◌, ◌⊎◌, inl, inr, refl, true, false, not, ◌&&◌, List, [], ◌∷◌, Option, none, some,
  Bool-cases, Option-cases, codes, arith,
}
use edgehog_zephyr_device.Result.{ok}
use edgehog_zephyr_device.FileTransfer.Message.Types.{
  TransferType, server_to_device, device_to_server, Encoding, no_encoding, lz4, tar, tar_lz4,
  unsupported_encoding, LocationType, streaming, unsupported_location, Entry, Message, zero_message,
  is_nil, ParsedHeaders, Environment,
}
use edgehog_zephyr_device.FileTransfer.Message.Parse.{
  is_server_to_device, location_key, parse_entries,
}
use edgehog_zephyr_device.FileTransfer.Message.Sent.{last_string, IsCopy, parse_entries-Sent}
use edgehog_zephyr_device.FileTransfer.Message.Init.{
  is_given, is_unsupported, is_streaming, is_known_encoding, is_refused, headers_of, finish_message,
  check_message, msg_init,
}

-- A byte of an identifier is not zero.
abbrev pub AnyByte : List ℕ → Type 0
AnyByte [] = ⊥
AnyByte (b ∷ id) = (b ≢ 0) ⊎ AnyByte id

-- A string that the server sent.
abbrev pub IsSent : Option (List ℕ) → List ℕ → List Entry → Type 0
IsSent field key entries = (s : List ℕ) × (field ≡ some s) × (last_string key entries none ≡ some s)

-- The encodings that the build has, with what they go with.
abbrev pub IsSupported : Environment → TransferType → Encoding → LocationType → Type 0
IsSupported env type no_encoding l = Unit
IsSupported env type lz4 l = (env.compression ≡ true) × (type ≡ server_to_device)
IsSupported env type tar l = (env.tar_support ≡ true) × (l ≢ streaming)
IsSupported env type tar_lz4 l = ⊥
IsSupported env type unsupported_encoding l = ⊥

-- A download has a digest to compare with.
abbrev pub HasDigest : TransferType → Option (List ℕ) → List Entry → Type 0
HasDigest server_to_device digest entries = IsSent digest (codes "digest") entries
HasDigest device_to_server digest entries = Unit

pub record IsRequest (env : Environment) (type : TransferType) (entries : List Entry) (m : Message)
    : Type 0 where
  pub identified : AnyByte m.id
  pub typed : m.type ≡ type
  pub addressed : IsSent m.url (codes "url") entries
  pub placed : IsSent m.location (location_key type) entries
  pub reachable : m.location_type ≢ unsupported_location
  pub digested : HasDigest type m.digest entries
  pub supported : IsSupported env type m.encoding m.location_type

is_nil-AnyByte : (id : List ℕ) → is_nil id ≡ false → AnyByte id
unfolding is_nil
is_nil-AnyByte [] h = cc
is_nil-AnyByte (b ∷ id) h = elim (Bool-cases (b == 0)) [
  | inl p ↦ inr (is_nil-AnyByte id (ground arith))
  | inr p ↦ inl (ground arith)
]

given-IsSent :
    (o : Option (List ℕ)) (key : List ℕ) (entries : List Entry)
    → is_given o ≡ true
    → IsCopy o (last_string key entries none)
    → IsSent o key entries
unfolding is_given
given-IsSent none key entries h c = cc
given-IsSent (some s) key entries h (inl e) = cc
given-IsSent (some s) key entries h (inr e) = (s, refl, ground arith)

is_unsupported_lem : (l : LocationType) → is_unsupported l ≡ false → l ≢ unsupported_location
unfolding is_unsupported
is_unsupported_lem l h = ground arith

encoding-IsSupported :
    (env : Environment) (type : TransferType) (e : Encoding) (l : LocationType)
    → is_known_encoding env e ≡ true
    → is_refused type e l ≡ false
    → IsSupported env type e l
unfolding is_known_encoding is_refused is_streaming is_server_to_device
encoding-IsSupported env type no_encoding l h r = tt
encoding-IsSupported env type lz4 l h r = ground arith
encoding-IsSupported env type tar l h r = ground arith
encoding-IsSupported env type tar_lz4 l h r = cc
encoding-IsSupported env type unsupported_encoding l h r = cc

digest-HasDigest :
    (type : TransferType) (o : Option (List ℕ)) (entries : List Entry)
    → (is_server_to_device type && not (is_given o)) ≡ false
    → IsCopy o (last_string (codes "digest") entries none)
    → HasDigest type o entries
unfolding is_server_to_device
digest-HasDigest server_to_device o entries h c =
    given-IsSent o (codes "digest") entries (ground arith) c
digest-HasDigest device_to_server o entries h c = tt

-- The facts behind a request that passes, and the headers that it gets.
check_message-ok :
    (env : Environment) (tmp msg : Message) (h : ParsedHeaders)
    → (check_message env tmp h msg).0 ≡ ok
    → (headers : Option (List (List ℕ))) × (check_message env tmp h msg
        ≡ (ok, record tmp { http_headers = headers }))
      × (is_nil tmp.id ≡ false)
      × (is_given tmp.url ≡ true)
      × (is_unsupported tmp.location_type ≡ false)
      × (is_given tmp.location ≡ true)
      × ((is_server_to_device tmp.type && not (is_given tmp.digest)) ≡ false)
      × (is_known_encoding env tmp.encoding ≡ true)
      × (is_refused tmp.type tmp.encoding tmp.location_type ≡ false)
unfolding check_message finish_message
check_message-ok env tmp msg h e = elim (Option-cases (headers_of env h)) [
  | inl n ↦ absurd (ground arith)
  | inr (headers, p) ↦ (
    headers,
    ground arith,
    ground arith,
    ground arith,
    ground arith,
    ground arith,
    ground arith,
    ground arith,
    ground arith,
  )
]

-- A request that is accepted names the transfer with an identifier that is not zero, has the URL and the
-- place that the server sent last, in a kind of place that the device knows; a download has the
-- digest that the server sent last; and the encoding is one that the build supports, in a combination
-- that it supports.
pub msg_init-IsRequest :
    (env : Environment) (entries : List Entry) (type : TransferType) (msg : Message)
    → (msg_init env entries type msg).0 ≡ ok
    → IsRequest env type entries (msg_init env entries type msg).1
unfolding msg_init
msg_init-IsRequest env entries type msg e =
    let start : Message = record zero_message { type = type } in
    let no_headers : ParsedHeaders = record { keys = none; values = none } in
    let parsed = parse_entries env 0 entries start no_headers in
    let (url, digest, location, typed) =
      parse_entries-Sent env type entries start no_headers refl refl refl refl in
    let (headers, r, id, u, t, l, d, k, c) = check_message-ok env parsed.0 msg parsed.1 e in
    rw r (record {
      identified = is_nil-AnyByte parsed.0.id id;
      typed = typed;
      addressed = given-IsSent parsed.0.url (codes "url") entries u url;
      placed = given-IsSent parsed.0.location (location_key type) entries l location;
      reachable = is_unsupported_lem parsed.0.location_type t;
      digested = digest-HasDigest type parsed.0.digest entries (rw typed at d) digest;
      supported =
          encoding-IsSupported env type parsed.0.encoding parsed.0.location_type k (rw typed at c);
    })
