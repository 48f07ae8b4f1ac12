-- ===== src/FileTransfer/Download/Tests.antt =====
-- A download of lib/edgehog_device/file_transfer/download.c at a concrete response of two fragments,
-- with a storage that keeps the bytes and a hash that is always zero.
use edgehog_zephyr_device.Prelude.{
  ℕ, ◌≡◌, refl, Bool, true, false, List, [], ◌∷◌, ◌++◌, replicate, some, pos, bytes_eq, codes,
  if◌then◌else◌, Bool-cases, inl, inr, arith,
}
use edgehog_zephyr_device.Result.{ok}
use edgehog_zephyr_device.Http.Response.{
  HttpResponse, is_failure_status, chunk_of, get_response_cbk, deliver,
}
use edgehog_zephyr_device.Http.Request.{
  open_socket, close_socket, allocate, free, connect_step, connect_loop, create_and_connect_socket,
  allocate_path, run_request, with_path, with_socket, with_url, perform_parsed, perform_request,
  get_client, http_get,
}
use edgehog_zephyr_device.FileTransfer.Message.Types.{Message, zero_message}
use edgehog_zephyr_device.FileTransfer.Message.Sent.{bytes_eq_eq}
use edgehog_zephyr_device.FileTransfer.Message.Init.{is_given}
use edgehog_zephyr_device.FileTransfer.Progress.{update_progress}
use edgehog_zephyr_device.FileTransfer.Download.Data.{
  FileWriteCbks, HashStatus, verified, mismatch, Crypto, Lz4,
}
use edgehog_zephyr_device.FileTransfer.Download.Chunks.{
  digest_takes, add_to_digest, process_uncompressed_chunk, process_chunk, request_cbk,
}
use edgehog_zephyr_device.FileTransfer.Download.Handle.{
  Backend, Surroundings, completed, is_bad_size, is_tar, status_errno, verify_bytes, verify_digest,
  is_no_error, exit, complete_file, get_callbacks, data_of, check_digest, download, with_file,
  with_backend, handle_server_to_device,
}
use edgehog_zephyr_device.FileTransfer.Download.Verified.{
  IsVerified, handle_server_to_device-IsVerified,
}
use edgehog_zephyr_device.FileTransfer.Download.Reported.{
  IsReported, handle_server_to_device-IsReported,
}

abbrev memory : FileWriteCbks (List ℕ)
memory = record {
  file_append_next_entry = λ name f. (ok, f);
  file_append_chunk = λ bytes f. (ok, f ++ bytes);
  file_complete = λ f. (ok, f);
  file_abort = λ f. [];
}

abbrev backend : Backend (List ℕ)
backend = record { file_init = λ size location is_tar. (ok, []); cbks = memory }

abbrev zeros : List ℕ
zeros = replicate 32 0

unfoldable verify_zeros : List ℕ → List ℕ → HashStatus
verify_zeros bytes expected = if bytes_eq zeros expected then verified else mismatch

verify_zeros_sound :
    (bytes expected : List ℕ) → verify_zeros bytes expected ≡ verified → zeros ≡ expected
unfolding verify_zeros
verify_zeros_sound bytes expected h = elim (Bool-cases (bytes_eq zeros expected)) [
  | inl p ↦ bytes_eq_eq zeros expected p
  | inr p ↦ absurd (ground arith)
]

abbrev zero_crypto : Crypto
zero_crypto = record {
  sha256 = λ bytes. zeros;
  setup_works = true;
  hash_update_works = λ hashed bytes. true;
  hash_verify = verify_zeros;
  hex2bin = λ hex. some zeros;
  verify_sound = verify_zeros_sound;
}

abbrev copying : Lz4 Bool
copying = record { init_works = true; fresh = true; decompress = λ bytes d. (bytes ∷ [], true, d) }

abbrev fragment : List ℕ → Bool → HttpResponse
fragment bytes final = record {
  status_code = 200;
  body_found = true;
  body_frag = bytes;
  content_length = 5;
  final = final;
}

abbrev surroundings : Surroundings (List ℕ) Bool
surroundings = record {
  stream = backend;
  file_system = backend;
  crypto = zero_crypto;
  decompression = copying;
  data_new = true;
  tls = true;
  calls = record {
    parsed = some (record {
      host_off = 8;
      host_len = 4;
      path_off = 12;
      path_len = 2;
      query_off = 0;
      query_len = 0;
      has_query = false;
      port = 0;
    });
    host_print = true;
    port_print = true;
    addresses =
        some (record { socket = true; sec_tags = true; hostname = true; connect = true } ∷ []);
    path_malloc = true;
    path_print = true;
    query_print = true;
    recv_malloc = true;
  };
  responses = fragment (codes "abc") false ∷ fragment (codes "de") true ∷ [];
  client_failed = false;
  held = record { sockets = 0; blocks = 0 };
}

abbrev digest : List ℕ
digest = codes "sha256:" ++ replicate 64 b'0'

abbrev sample_message : Message
sample_message = record zero_message { digest = some digest; file_size_bytes = pos 5 }

message_completed :
    (handle_server_to_device surroundings sample_message).0 ≡ completed (codes "abcde")
unfolding handle_server_to_device is_bad_size get_callbacks with_backend is_tar with_file is_given
    download http_get perform_request perform_parsed with_url create_and_connect_socket connect_loop
    connect_step open_socket close_socket allocate free with_socket allocate_path with_path
    run_request get_client deliver get_response_cbk is_failure_status chunk_of request_cbk
    digest_takes add_to_digest process_chunk process_uncompressed_chunk update_progress data_of
    check_digest verify_digest verify_bytes verify_zeros status_errno is_no_error complete_file exit
message_completed = refl

handle_server_to_device-IsVerified_example : IsVerified surroundings digest
handle_server_to_device-IsVerified_example =
    handle_server_to_device-IsVerified surroundings sample_message (codes "abcde") refl
      message_completed

handle_server_to_device-IsReported_example :
    IsReported surroundings sample_message (handle_server_to_device surroundings sample_message)
handle_server_to_device-IsReported_example =
    handle_server_to_device-IsReported surroundings sample_message
