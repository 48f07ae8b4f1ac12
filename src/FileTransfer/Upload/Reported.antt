-- ===== src/FileTransfer/Upload/Reported.antt =====
-- The report of each end of an upload (lib/edgehog_device/file_transfer/upload.c).
use edgehog_zephyr_device.Prelude.{
  ℕ, ◌≡◌, ◌≢◌, refl, Option, none, some, Bool-cases, inl, inr, arith,
}
use edgehog_zephyr_device.Result.{EdgehogResult, is_ok}
use edgehog_zephyr_device.Http.Request.{http_put}
use edgehog_zephyr_device.FileTransfer.Message.Types.{device_to_server, Message}
use edgehog_zephyr_device.FileTransfer.Service.Requests.{
  Errno, no_error, Response, result_code, response_code, send_response,
}
use edgehog_zephyr_device.FileTransfer.Download.Handle.{
  End, not_opened, completed, aborted, left_open, is_tar,
}
use edgehog_zephyr_device.FileTransfer.Upload.Chunks.{FileReadCbks, payload_cbk}
use edgehog_zephyr_device.FileTransfer.Upload.Handle.{
  ReadBackend, UploadSurroundings, headers_list, put_errno, get_read_callbacks, upload_data_of,
  upload_exit, finish_upload, upload, upload_backend, handle_device_to_server,
}

put_errno_lem :
    (code : Errno) (eres : EdgehogResult) → response_code (put_errno code) eres ≢ no_error
unfolding put_errno response_code
put_errno_lem code eres = ground arith

module _ {F : Type 0} where
  -- A success is reported for a completed upload only.
  abbrev pub UploadReports : End F → Errno → Type 0
  UploadReports not_opened code = code ≢ no_error
  UploadReports (completed f) code = code ≡ no_error
  UploadReports (aborted f) code = code ≢ no_error
  UploadReports (left_open f) code = code ≢ no_error

  abbrev pub IsUploadReported : Message → End F × Response → Type 0
  IsUploadReported msg r =
      (r.1.id ≡ msg.id) × (r.1.type ≡ device_to_server) × UploadReports r.0 r.1.code

  finish_upload-IsUploadReported :
      (cbks : FileReadCbks F) (msg : Message) (file : F)
      → IsUploadReported msg (finish_upload cbks msg file)
  unfolding finish_upload upload_exit send_response response_code result_code
  finish_upload-IsUploadReported cbks msg file =
      elim (Bool-cases (is_ok (cbks.file_complete file).0)) [
        | inl p ↦ rw p (refl, refl, refl)
        | inr p ↦ rw p (refl, refl, λ e. cc)
      ]

  upload-IsUploadReported :
      (w : UploadSurroundings F) (cbks : FileReadCbks F) (msg : Message) (file : F)
      (upload_size : ℕ)
      → IsUploadReported msg (upload w cbks msg file upload_size)
  unfolding upload upload_exit send_response
  upload-IsUploadReported w cbks msg file upload_size =
      let r =
        http_put (w.client (payload_cbk cbks)) w.tls w.calls (headers_list msg.http_headers)
          (upload_data_of msg file upload_size) w.held in
      elim (Bool-cases (is_ok r.0)) [
        | inl p ↦ rw p (finish_upload-IsUploadReported cbks msg r.1.user.file)
        | inr p ↦ rw p (refl, refl, put_errno_lem r.1.user.posix_errno r.0)
      ]

  upload_backend-IsUploadReported :
      (w : UploadSurroundings F) (msg : Message) (o : Option (ReadBackend F))
      → IsUploadReported msg (upload_backend w msg o)
  unfolding upload_backend upload_exit send_response response_code
  upload_backend-IsUploadReported w msg none = (refl, refl, λ e. cc)
  upload_backend-IsUploadReported w msg (some b) =
      let r = b.file_init msg.location (is_tar msg.encoding) in
      elim (Bool-cases (is_ok r.0)) [
        | inr p ↦ rw p (refl, refl, λ e. cc)
        | inl p ↦ elim (Bool-cases w.data_new) [
          | inr q ↦ rw (p, q) (refl, refl, λ e. cc)
          | inl q ↦ simp (p, q) (upload-IsUploadReported w b.cbks msg r.1 r.2)
        ]
      ]

  -- Whatever the HTTP client and the storage do, an upload ends with one report of its transfer, which is a success exactly if the storage was completed.
  pub handle_device_to_server-IsUploadReported :
      (w : UploadSurroundings F) (msg : Message)
      → IsUploadReported msg (handle_device_to_server w msg)
  unfolding handle_device_to_server
  handle_device_to_server-IsUploadReported w msg =
      upload_backend-IsUploadReported w msg (get_read_callbacks w msg.location_type)
