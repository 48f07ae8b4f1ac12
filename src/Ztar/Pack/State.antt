-- ===== src/Ztar/Pack/State.antt =====
-- The state of the writer of lib/edgehog_device/ztar/pack.c and its set-up.
use edgehog_zephyr_device.Prelude.{ℕ, Bool, true, false, List, [], Option, none, some, ℤ}
use edgehog_zephyr_device.Ztar.Core.{ZtarResult, ok, invalid_args}

pub data PackState : Type 0 where
  next_file header data_block padding trailer done : PackState

-- What `get_next_file` leaves behind: the C result, `has_next`, the name, the size, the user data.
pub record NextFile (U : Type 0) : Type 0 where
  pub result : ℤ
  pub has_next : Bool
  pub name : List ℕ
  pub size : ℕ
  pub user_data : U

-- `get_next_file` is given the name and size that stand in the stream. `read_file_data` is given
-- the largest size, and returns the C result with the bytes that it put in the buffer.
pub record PackCallbacks (U : Type 0) : Type 0 where
  pub get_next_file : List ℕ → ℕ → U → NextFile U
  pub read_file_data : ℕ → U → ℤ × List ℕ × U

pub record Pack (U : Type 0) : Type 0 where
  pub initialized : Bool
  pub state : PackState
  pub current_file_name : List ℕ
  pub expected_file_size : ℕ
  pub bytes_written_for_file : ℕ
  pub bytes_processed_in_padding : ℕ
  pub bytes_processed_in_trailer : ℕ
  pub callbacks : PackCallbacks U
  pub user_data : U

module _ {U : Type 0} where
  -- `ztar_pack_init`; `none` for a null stream, and for callbacks of which one is null.
  unfoldable pub init :
      Option (Pack U) → Option (PackCallbacks U) → U → ZtarResult × Option (Pack U)
  init none callbacks user_data = (invalid_args, none)
  init (some stream) none user_data = (invalid_args, some stream)
  init (some stream) (some callbacks) user_data = (
    ok,
    some (record {
      initialized = true;
      state = next_file;
      current_file_name = [];
      expected_file_size = 0;
      bytes_written_for_file = 0;
      bytes_processed_in_padding = 0;
      bytes_processed_in_trailer = 0;
      callbacks = callbacks;
      user_data = user_data;
    }),
  )

  unfoldable pub is_initialized : Option (Pack U) → Bool
  is_initialized none = false
  is_initialized (some stream) = stream.initialized
