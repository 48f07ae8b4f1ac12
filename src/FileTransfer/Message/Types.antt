-- ===== src/FileTransfer/Message/Types.antt =====
-- The message of a transfer, lib/edgehog_device/include/file_transfer/core.h, and the values of the
-- server that it is read from.
use edgehog_zephyr_device.Prelude.{ℕ, ◌==◌, Bool, false, List, replicate, all, Option, none, ℤ, pos}

-- `edgehog_ft_type_t`
pub data TransferType : Type 0 where
  server_to_device device_to_server : TransferType

-- `enum edgehog_ft_encoding`
pub data Encoding : Type 0 where
  no_encoding lz4 tar tar_lz4 unsupported_encoding : Encoding

-- `enum edgehog_ft_location_type`
pub data LocationType : Type 0 where
  filesystem streaming unsupported_location : LocationType

-- The values of an object's entries. An array of strings may hold null pointers.
pub data Value : Type 0 where
  string : List ℕ → Value
  string_array : List (Option (List ℕ)) → Value
  boolean : Bool → Value
  long_integer : ℤ → Value
  other_value : Value

-- `astarte_object_entry_t`
pub record Entry : Type 0 where
  pub path : List ℕ
  pub value : Value

-- `edgehog_ft_msg_t`; the identifier is the 16 bytes of a UUID, and a null pointer is `none`.
pub record Message : Type 0 where
  pub id : List ℕ
  pub url : Option (List ℕ)
  pub http_headers : Option (List (List ℕ))
  pub encoding : Encoding
  pub progress : Bool
  pub digest : Option (List ℕ)
  pub location_type : LocationType
  pub location : Option (List ℕ)
  pub type : TransferType
  pub file_size_bytes : ℤ

-- `{ 0 }`: the first encoding is none, the first location the file system.
abbrev pub zero_message : Message
zero_message = record {
  id = replicate 16 0;
  url = none;
  http_headers = none;
  encoding = no_encoding;
  progress = false;
  digest = none;
  location_type = filesystem;
  location = none;
  type = server_to_device;
  file_size_bytes = pos 0;
}

-- The test of the four words of an identifier.
unfoldable pub is_nil : List ℕ → Bool
is_nil id = all (λ b. b == 0) id

-- `parsed_http_headers_t`
pub record ParsedHeaders : Type 0 where
  pub keys : Option (List (Option (List ℕ)))
  pub values : Option (List (Option (List ℕ)))

-- The options of the build, the outcomes of the allocations, and `uuid_from_string`, which is given
-- the identifier that it writes to. `copy_works i` is the copy of the i-th entry's string,
-- `header_works i` the i-th header's, `headers_work` that of the array.
pub record Environment : Type 0 where
  pub compression : Bool
  pub tar_support : Bool
  pub copy_works : ℕ → Bool
  pub headers_work : Bool
  pub header_works : ℕ → Bool
  pub uuid_from_string : List ℕ → List ℕ → List ℕ
