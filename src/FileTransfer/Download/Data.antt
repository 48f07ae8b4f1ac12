-- ===== src/FileTransfer/Download/Data.antt =====
-- What a download of lib/edgehog_device/file_transfer/download.c keeps and calls: the storage, the
-- digest and the decompression.
use edgehog_zephyr_device.Prelude.{ℕ, ◌≡◌, Bool, List, Option}
use edgehog_zephyr_device.Result.{EdgehogResult}
use edgehog_zephyr_device.FileTransfer.Message.Types.{Encoding}
use edgehog_zephyr_device.FileTransfer.Progress.{Progress}
use edgehog_zephyr_device.FileTransfer.Service.Requests.{Errno}
use edgehog_zephyr_device.Ztar.Unpack.State.{Unpack}

-- `edgehog_ft_file_write_cbks_t` on a context that `file_init` gave.
pub record FileWriteCbks (F : Type 0) : Type 0 where
  pub file_append_next_entry : List ℕ → F → EdgehogResult × F
  pub file_append_chunk : List ℕ → F → EdgehogResult × F
  pub file_complete : F → EdgehogResult × F
  pub file_abort : F → F

-- `psa_hash_verify`: PSA_SUCCESS, PSA_ERROR_INVALID_SIGNATURE or another error.
pub data HashStatus : Type 0 where
  verified mismatch hash_error : HashStatus

-- The hash of the cryptography library: `hash_update_works` is its outcome on the bytes so far and the new ones. A verification succeeds only if the
-- hash of all bytes is the expected one. `hex2bin` is that of the operating system.
pub record Crypto : Type 0 where
  pub sha256 : List ℕ → List ℕ
  pub setup_works : Bool
  pub hash_update_works : List ℕ → List ℕ → Bool
  pub hash_verify : List ℕ → List ℕ → HashStatus
  pub hex2bin : List ℕ → Option (List ℕ)
  pub verify_sound :
      (bytes expected : List ℕ) → hash_verify bytes expected ≡ verified → sha256 bytes ≡ expected

-- The streaming decompression: for a chunk, the blocks that it gives out in their order, whether it
-- went well behind them, and its next state.
pub record Lz4 (D : Type 0) : Type 0 where
  pub init_works : Bool
  pub fresh : D
  pub decompress : List ℕ → D → List (List ℕ) × Bool × D

-- `edgehog_ft_http_cbk_data_t`: the storage, the bytes that the digest has seen, the contexts of the decompression and
-- of the archive reader once they are set up, the progress and the error number.
pub record Data (F D : Type 0) : Type 0 where
  pub file : F
  pub expected_digest : Option (List ℕ)
  pub hashed : List ℕ
  pub encoding : Encoding
  pub decomp : Option D
  pub unpack : Option (Unpack (F × Errno))
  pub progress : Progress
  pub posix_errno : Errno
