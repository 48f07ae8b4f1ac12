-- ===== src/FileTransfer/Upload/Tests.antt =====
-- An upload of lib/edgehog_device/file_transfer/upload.c at a storage of one chunk, and a client that asks for it once.
use edgehog_zephyr_device.Prelude.{ℕ, true, false, List, [], ◌∷◌, some, codes}
use edgehog_zephyr_device.Result.{ok}
use edgehog_zephyr_device.FileTransfer.Message.Types.{Message, zero_message, device_to_server}
use edgehog_zephyr_device.FileTransfer.Upload.Chunks.{FileReadCbks}
use edgehog_zephyr_device.FileTransfer.Upload.Handle.{
  ReadBackend, UploadSurroundings, handle_device_to_server,
}
use edgehog_zephyr_device.FileTransfer.Upload.Reported.{
  IsUploadReported, handle_device_to_server-IsUploadReported,
}

abbrev one_chunk : FileReadCbks (List ℕ)
one_chunk = record {
  file_get_next_entry =
      λ name size f. record { result = ok; name = []; size = 0; has_next = false; file = f };
  file_read_chunk = λ n f. record { result = ok; bytes = f; last_chunk = true; file = [] };
  file_complete = λ f. (ok, f);
  file_abort = λ f. f;
}

abbrev source : ReadBackend (List ℕ)
source = record { file_init = λ location is_tar. (ok, codes "abc", 3); cbks = one_chunk }

abbrev upload_surroundings : UploadSurroundings (List ℕ)
upload_surroundings = record {
  stream = source;
  file_system = source;
  data_new = true;
  tls = false;
  calls = record {
    parsed = some (record {
      host_off = 8;
      host_len = 4;
      path_off = 12;
      path_len = 2;
      query_off = 0;
      query_len = 0;
      has_query = false;
      port = 0;
    });
    host_print = true;
    port_print = true;
    addresses =
        some (record { socket = true; sec_tags = true; hostname = true; connect = true } ∷ []);
    path_malloc = true;
    path_print = true;
    query_print = true;
    recv_malloc = true;
  };
  client = λ cbk ctx. (true, record { result = (cbk ctx.user).0; user = (cbk ctx.user).2 });
  held = record { sockets = 0; blocks = 0 };
}

abbrev upload_message : Message
upload_message = record zero_message { type = device_to_server }

handle_device_to_server-IsUploadReported_example :
    IsUploadReported upload_message (handle_device_to_server upload_surroundings upload_message)
handle_device_to_server-IsUploadReported_example =
    handle_device_to_server-IsUploadReported upload_surroundings upload_message
