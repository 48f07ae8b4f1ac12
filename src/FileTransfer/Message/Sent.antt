-- ===== src/FileTransfer/Message/Sent.antt =====
-- Which entry of a request a field of the parsed message comes from
-- (lib/edgehog_device/file_transfer/utils.c).
use edgehog_zephyr_device.Prelude.{
  ℕ, ◌+◌, ◌≡◌, ◌⊎◌, inl, inr, refl, ◌∙◌, Bool, true, List, [], ◌∷◌, Option, none, some,
  if◌then◌else◌, Bool-cases, bytes_eq, codes, arith,
}
use edgehog_zephyr_device.FileTransfer.Message.Types.{
  TransferType, server_to_device, device_to_server, Value, string, string_array, boolean,
  long_integer, other_value, Entry, Message, ParsedHeaders, Environment,
}
use edgehog_zephyr_device.FileTransfer.Message.Parse.{
  location_key, duplicate_string, parse_string, parse_value, parse_headers, parse_entries,
}

-- The string of the last entry with a name, of those that hold a string.
abbrev pub string_at : List ℕ → List ℕ → Value → Option (List ℕ) → Option (List ℕ)
string_at key path (string s) old = if bytes_eq path key then some s else old
string_at key path (string_array ss) old = old
string_at key path (boolean b) old = old
string_at key path (long_integer n) old = old
string_at key path other_value old = old

pub last_string : List ℕ → List Entry → Option (List ℕ) → Option (List ℕ)
last_string key [] old = old
last_string key (e ∷ entries) old = last_string key entries (string_at key e.path e.value old)

pub bytes_eq_eq : (xs ys : List ℕ) → bytes_eq xs ys ≡ true → xs ≡ ys
bytes_eq_eq [] [] h = refl
bytes_eq_eq [] (y ∷ ys) h = cc
bytes_eq_eq (x ∷ xs) [] h = cc
bytes_eq_eq (x ∷ xs) (y ∷ ys) h =
    let same : x ≡ y = ground arith in let rest : xs ≡ ys = bytes_eq_eq xs ys (ground arith) in cc

-- A copy of a string holds the string, where there is one.
abbrev copy_at : Bool → List ℕ → List ℕ → Value → Option (List ℕ) → Option (List ℕ)
copy_at works key path (string s) old = if bytes_eq path key then duplicate_string works s else old
copy_at works key path (string_array ss) old = old
copy_at works key path (boolean b) old = old
copy_at works key path (long_integer n) old = old
copy_at works key path other_value old = old

module _ (env : Environment) (works : Bool) where
  parse_value-type :
      (path : List ℕ) (v : Value) (m : Message) → (parse_value env works path v m).type ≡ m.type
  unfolding parse_value parse_string
  parse_value-type path (string s) m = ground arith
  parse_value-type path (string_array ss) m = refl
  parse_value-type path (boolean b) m = ground arith
  parse_value-type path (long_integer n) m = ground arith
  parse_value-type path other_value m = refl

  parse_value-url :
      (path : List ℕ) (v : Value) (m : Message)
      → (parse_value env works path v m).url ≡ copy_at works (codes "url") path v m.url
  unfolding parse_value parse_string
  parse_value-url path (string s) m = elim (Bool-cases (bytes_eq path (codes "url"))) [
    | inl p ↦ let e = bytes_eq_eq path (codes "url") p in rw e refl
    | inr p ↦ ground arith
  ]
  parse_value-url path (string_array ss) m = refl
  parse_value-url path (boolean b) m = ground arith
  parse_value-url path (long_integer n) m = ground arith
  parse_value-url path other_value m = refl

  parse_value-digest :
      (path : List ℕ) (v : Value) (m : Message)
      → (parse_value env works path v m).digest ≡ copy_at works (codes "digest") path v m.digest
  unfolding parse_value parse_string
  parse_value-digest path (string s) m = elim (Bool-cases (bytes_eq path (codes "digest"))) [
    | inl p ↦ let e = bytes_eq_eq path (codes "digest") p in rw e refl
    | inr p ↦ ground arith
  ]
  parse_value-digest path (string_array ss) m = refl
  parse_value-digest path (boolean b) m = ground arith
  parse_value-digest path (long_integer n) m = ground arith
  parse_value-digest path other_value m = refl

  located :
      (type : TransferType) (path s : List ℕ) (m : Message)
      → m.type ≡ type
      → (parse_string env works path s m).location
        ≡ copy_at works (location_key type) path (string s) m.location
  unfolding parse_string
  located server_to_device path s m t = elim (Bool-cases (bytes_eq path (codes "destination"))) [
    | inl p ↦ let e = bytes_eq_eq path (codes "destination") p in rw (e, t) refl
    | inr p ↦ rw t (ground arith)
  ]
  located device_to_server path s m t = elim (Bool-cases (bytes_eq path (codes "source"))) [
    | inl p ↦ let e = bytes_eq_eq path (codes "source") p in rw (e, t) refl
    | inr p ↦ rw t (ground arith)
  ]

  parse_value-location :
      (type : TransferType) (path : List ℕ) (v : Value) (m : Message)
      → m.type ≡ type
      → (parse_value env works path v m).location
        ≡ copy_at works (location_key type) path v m.location
  unfolding parse_value
  parse_value-location type path (string s) m t = located type path s m t
  parse_value-location type path (string_array ss) m t = refl
  parse_value-location type path (boolean b) m t = ground arith
  parse_value-location type path (long_integer n) m t = ground arith
  parse_value-location type path other_value m t = refl

-- A field is empty, where the copy of its string failed, or it holds the string.
abbrev pub IsCopy : Option (List ℕ) → Option (List ℕ) → Type 0
IsCopy a b = (a ≡ none) ⊎ (a ≡ b)

copy_at-IsCopy :
    (works : Bool) (key path : List ℕ) (v : Value) (a b : Option (List ℕ))
    → IsCopy a b
    → IsCopy (copy_at works key path v a) (string_at key path v b)
unfolding duplicate_string
copy_at-IsCopy works key path (string s) a b h = ground arith
copy_at-IsCopy works key path (string_array ss) a b h = h
copy_at-IsCopy works key path (boolean c) a b h = h
copy_at-IsCopy works key path (long_integer n) a b h = h
copy_at-IsCopy works key path other_value a b h = h

module _ (env : Environment) (type : TransferType) where
  parse_entries-type :
      (i : ℕ) (entries : List Entry) (m : Message) (h : ParsedHeaders)
      → m.type ≡ type
      → (parse_entries env i entries m h).0.type ≡ type
  unfolding parse_entries
  parse_entries-type i [] m h t = t
  parse_entries-type i (e ∷ entries) m h t =
      parse_entries-type (i + 1) entries (parse_value env (env.copy_works i) e.path e.value m)
        (parse_headers e.path e.value h)
        (parse_value-type env (env.copy_works i) e.path e.value m ∙ t)

  -- A field that copies the strings with a name: at the end it copies the last one.
  parse_entries-IsCopy :
      (field : Message → Option (List ℕ)) (key : List ℕ)
      → ((works : Bool) (path : List ℕ) (v : Value) (m : Message)
          → m.type ≡ type
          → field (parse_value env works path v m) ≡ copy_at works key path v (field m))
      → (i : ℕ) (entries : List Entry) (m : Message) (h : ParsedHeaders) (old : Option (List ℕ))
      → m.type ≡ type
      → IsCopy (field m) old
      → IsCopy (field (parse_entries env i entries m h).0) (last_string key entries old)
  unfolding parse_entries last_string
  parse_entries-IsCopy field key step i [] m h old t c = c
  parse_entries-IsCopy field key step i (e ∷ entries) m h old t c =
      let works = env.copy_works i in
      parse_entries-IsCopy field key step (i + 1) entries (parse_value env works e.path e.value m)
        (parse_headers e.path e.value h) (string_at key e.path e.value old)
        (parse_value-type env works e.path e.value m ∙ t)
        (rw (step works e.path e.value m t)
          (copy_at-IsCopy works key e.path e.value (field m) old c))

  -- What the fields of a parsed request are copies of, where it starts from an empty message.
  pub parse_entries-Sent :
      (entries : List Entry) (m : Message) (h : ParsedHeaders)
      → m.type ≡ type
      → m.url ≡ none
      → m.digest ≡ none
      → m.location ≡ none
      → let tmp = (parse_entries env 0 entries m h).0 in
        IsCopy tmp.url (last_string (codes "url") entries none)
        × IsCopy tmp.digest (last_string (codes "digest") entries none)
        × IsCopy tmp.location (last_string (location_key type) entries none)
        × (tmp.type ≡ type)
  parse_entries-Sent entries m h t u d l = (
    parse_entries-IsCopy (λ m. m.url) (codes "url")
        (λ works path v m t. parse_value-url env works path v m) 0 entries m h none t (inl u),
    parse_entries-IsCopy (λ m. m.digest) (codes "digest")
        (λ works path v m t. parse_value-digest env works path v m) 0 entries m h none t (inl d),
    parse_entries-IsCopy (λ m. m.location) (location_key type)
        (λ works path v m t. parse_value-location env works type path v m t) 0 entries m h none t
        (inl l),
    parse_entries-type 0 entries m h t,
  )
