-- ===== src/FileTransfer/Download/Reported.antt =====
-- The report of each end of a download (lib/edgehog_device/file_transfer/download.c).
use edgehog_zephyr_device.Prelude.{
  ℕ, ◌≡◌, ◌≢◌, refl, false, List, Option, none, some, Bool-cases, inl, inr, arith,
}
use edgehog_zephyr_device.Result.{EdgehogResult, is_ok}
use edgehog_zephyr_device.Http.Request.{http_get}
use edgehog_zephyr_device.FileTransfer.Message.Types.{server_to_device, Message}
use edgehog_zephyr_device.FileTransfer.Service.Requests.{
  Errno, no_error, Response, result_code, response_code, send_response,
}
use edgehog_zephyr_device.FileTransfer.Download.Data.{FileWriteCbks, Crypto, Data}
use edgehog_zephyr_device.FileTransfer.Download.Chunks.{request_cbk}
use edgehog_zephyr_device.FileTransfer.Download.Handle.{
  Backend, Surroundings, End, not_opened, completed, aborted, left_open, is_bad_size, is_tar,
  verify_digest, is_no_error, exit, complete_file, get_callbacks, data_of, check_digest, download,
  with_file, with_backend, handle_server_to_device,
}

-- A failure's code is never that of a success.
response_code_lem :
    (code : Errno) (eres : EdgehogResult) → is_ok eres ≡ false → response_code code eres ≢ no_error
unfolding response_code result_code
response_code_lem no_error eres h = ground arith
response_code_lem code eres h = ground arith

module _ {F D : Type 0} where
  -- The report of an end: a success for a completed file only. A context stays open only where the
  -- callback's data could not be allocated.
  abbrev pub Reports : Surroundings F D → End F → Errno → Type 0
  Reports w not_opened code = code ≢ no_error
  Reports w (completed f) code = code ≡ no_error
  Reports w (aborted f) code = code ≢ no_error
  Reports w (left_open f) code = (code ≢ no_error) × (w.data_new ≡ false)

  abbrev pub IsReported : Surroundings F D → Message → End F × Response → Type 0
  IsReported w msg r = (r.1.id ≡ msg.id) × (r.1.type ≡ server_to_device) × Reports w r.0 r.1.code

  complete_file-IsReported :
      (w : Surroundings F D) (cbks : FileWriteCbks F) (msg : Message) (file : F)
      → IsReported w msg (complete_file cbks msg file)
  unfolding complete_file exit send_response response_code result_code
  complete_file-IsReported w cbks msg file = elim (Bool-cases (is_ok (cbks.file_complete file).0)) [
    | inl p ↦ rw p (refl, refl, refl)
    | inr p ↦ rw p (refl, refl, λ e. cc)
  ]

  check_digest-IsReported :
      (w : Surroundings F D) (crypto : Crypto) (cbks : FileWriteCbks F) (msg : Message)
      (o : Option (List ℕ)) (d : Data F D)
      → IsReported w msg (check_digest crypto cbks msg o d)
  unfolding check_digest exit send_response is_no_error response_code
  check_digest-IsReported w crypto cbks msg none d = complete_file-IsReported w cbks msg d.file
  check_digest-IsReported w crypto cbks msg (some digest) d =
      elim (Bool-cases (is_no_error (verify_digest crypto d.hashed digest))) [
        | inl p ↦ rw p (complete_file-IsReported w cbks msg d.file)
        | inr p ↦ rw p (refl, refl, ground arith)
      ]

  download-IsReported :
      (w : Surroundings F D) (cbks : FileWriteCbks F) (msg : Message) (file : F)
      → IsReported w msg (download w cbks msg file)
  unfolding download exit send_response
  download-IsReported w cbks msg file =
      let r =
        http_get (request_cbk cbks w.decompression w.crypto) w.tls w.calls w.responses
          w.client_failed (data_of msg file) w.held in
      elim (Bool-cases (is_ok r.0)) [
        | inl p ↦ rw p (check_digest-IsReported w w.crypto cbks msg msg.digest r.1.user)
        | inr p ↦ rw p (refl, refl, response_code_lem r.1.user.posix_errno r.0 p)
      ]

  with_file-IsReported :
      (w : Surroundings F D) (cbks : FileWriteCbks F) (msg : Message) (file : F)
      → IsReported w msg (with_file w cbks msg file)
  unfolding with_file exit send_response response_code
  with_file-IsReported w cbks msg file = ground (arith, download-IsReported w cbks msg file)

  with_backend-IsReported :
      (w : Surroundings F D) (msg : Message) (o : Option (Backend F))
      → IsReported w msg (with_backend w msg o)
  unfolding with_backend exit send_response response_code
  with_backend-IsReported w msg none = (refl, refl, λ e. cc)
  with_backend-IsReported w msg (some b) =
      let r = b.file_init msg.file_size_bytes msg.location (is_tar msg.encoding) in
      elim (Bool-cases (is_ok r.0)) [
        | inl p ↦ rw p (with_file-IsReported w b.cbks msg r.1)
        | inr p ↦ rw p (refl, refl, λ e. cc)
      ]

  -- A download to the device always ends with one report of its transfer. The report is a success exactly if the file
  -- was completed; in every other case the context of the storage was never there or was aborted, except where the
  -- callback's data could not be allocated, which leaves it open.
  pub handle_server_to_device-IsReported :
      (w : Surroundings F D) (msg : Message) → IsReported w msg (handle_server_to_device w msg)
  unfolding handle_server_to_device exit send_response response_code
  handle_server_to_device-IsReported w msg = elim (Bool-cases (is_bad_size msg.file_size_bytes)) [
    | inl p ↦ rw p (refl, refl, λ e. cc)
    | inr p ↦ rw p (with_backend-IsReported w msg (get_callbacks w msg.location_type))
  ]
