-- ===== src/Lib.antt =====
-- A model of the Edgehog device library for Zephyr: updates, archives, telemetry, file transfers,
-- the HTTP client and the LED.
--
-- Parts, and the files that model them. All paths are from the root of the repository.
--
-- - Prelude and Prelude/: numbers, lists, C integers and C strings that every part shares.
-- - Result: the result codes of include/edgehog_device/result.h.
-- - Ztar: streaming reader and writer of USTAR archives, lib/edgehog_device/ztar.
--     Core, Header: include/ztar/core.h. A header is a list of 512 bytes.
--     Octal: `strtoul`, `strtoull` and `snprintf` with %o, as far as the fields use them.
--     Unpack/State, Steps, Process: unpack.c. `ztar_unpack_process` is `process`, the handlers of
--     the four parser states keep their names. Unpack/Validate: the checks of a header.
--     Pack/Format, State, Steps, Stream: pack.c. `pack_handle_header` is `format_header` with the
--     copy to the output, `ztar_pack_read_stream` is `read_stream`.
--     A callback takes the user data and returns the C result and the new user data.
-- - Ota: over-the-air updates, lib/edgehog_device/ota.c.
--     State: `ota_thread_data_t` with the settings, the messages sent and the semaphore shared with
--     the file transfers. Publish: `pub_ota_event`. Download: one attempt and the loop of attempts.
--     Thread: `ota_thread_entry_point`. Events: `edgehog_ota_event`. Boot: `edgehog_ota_init`.
--     The flash image writer of the operating system is the interface `FlashImg`: its laws say that
--     a write that succeeds accepts its bytes, that no write gives bytes back, and that a flush
--     leaves none in the buffer. Every other call of the operating system, of the boot loader and of
--     the settings is given by its outcome. A download is the list of its chunks, with the points at
--     which a cancellation arrives in between; one that comes after the last test of the run bit is a
--     flag of the outcomes. A response gives its length, by which the code divides.
-- - Telemetry: lib/edgehog_device/telemetry.c and telemetry_entry.c.
--     State: `edgehog_telemetry_t` with what the settings hold. Entries: the array of entries.
--     Schedule: `schedule_entry` and `unschedule_entry`. Events: the properties that the server sets
--     and unsets. Service: creation, start and stop. A timer is stopped, or was started
--     with K_SECONDS of a period, a macro of the operating system that stays as it is written.
--     The entries that the settings give at the creation are an argument; the thread that publishes
--     and the release of the memory are not modelled.
-- - FileTransfer: file transfers, lib/edgehog_device/file_transfer.
--     Path, Partition, Files: filesystem_utils.c over the interface `FileSystem` of the operating
--     system, whose laws say that a directory that is created is there, that no entry disappears,
--     and that what is new is a directory. Path/Components says when a path is safe.
--     Files/Directories: `mkdir_recursive`.
--     Files/Walk: `fs_walk`. Files/Size: `calculate_tar_directory_size`. Files/Validate:
--     `is_valid_destination`, `is_valid_relative_file` and `is_valid_source`.
--     Message: utils.c, `edgehog_ft_msg_init`. Message/Sent says which entry of a request a field
--     comes from. Progress: `edgehog_ft_update_progress`.
--     Service: core.c. `thread_step` is one step of `thread_entry_point`; Service/Steps puts the
--     thread, the calls and the updates, which share the semaphore, in every order. A transfer is
--     one step there.
--     Download: download.c. The storage, the hash and the decompression are interfaces; the law of
--     the hash says that a verification succeeds only on the hash of the bytes. The archive reader
--     is that of Ztar, the request that of Http.
--     Upload: upload.c. Chunks: `http_put_device_to_server_payload_cbk`, over the archive writer of
--     Ztar. Handle: `edgehog_ft_handle_device_to_server`; the HTTP library is a function that calls
--     the payload callback as often as it wants.
--     Stream: `write_append` of stream.c, over the interface of a pipe that an application empties
--     and of the clock, which stands still but in a write to the pipe and in a sleep.
-- - Http: lib/edgehog_device/http.c. Response: the response callbacks. Payload: the upload over the
--     interface `Transport` of a socket, whose law says that the bytes it takes are on the wire.
--     The counts are the bits of an `int`, whose sums wrap.
--     Path: `build_full_path`. Request: `perform_request` with the sockets and the memory that it
--     holds, `edgehog_http_get` and `edgehog_http_put`. The response is a list of fragments.
-- - Led: lib/edgehog_device/led.c. State: the two halves of an event, up to the creation of the thread
--     and the start of the timer, the expiry, and the test of the thread's loop. Steps: their orders;
--     once the handle of a thread that has not ended is cleared, anything may follow.
--
-- `size_t` has 32 bits, as on the boards that the library names: counters wrap at 2 ^ 32.
--
-- Fuel: `process` runs on three rounds for each byte and three more. A round consumes a byte, or
-- leaves a state for another with less to owe, or ends the call.
-- `read_stream` takes its fuel from the caller: five rounds for each byte of the output buffer and
-- five more are enough, since a round writes a byte or goes down in the order data, padding, next
-- file, header, trailer, done. The attempts of an update are counted down from five.
--
-- `write_append` runs on 201 rounds for each byte and 201 more: a round sleeps for ten milliseconds,
-- and two seconds without a byte end it.
-- `fs_walk` runs on 256 levels: a path has fewer bytes than that, and each level adds one.
-- `send_buffer_fully` runs on a round for each byte and one more, since a round sends a byte or
-- ends. `put_payload` takes the number of the payload's chunks.
--
-- Not modelled: logging, the texts and time stamps of messages, the memory of a string once it is
-- freed, the wait for the restart (`wait_for_reboot`), and the parts that only read values of the
-- operating system and send them. The life cycle of the device, the storage behind a transfer
-- (the rest of stream.c, and filesystem.c), the compression of an upload, which a request may not
-- ask for, the wrappers of the settings and of the compression library, the scan of networks and
-- the commands are not modelled either; the generated interfaces are tables.
pub mod Prelude
pub mod Result
pub mod Ztar
pub mod Ota
pub mod Telemetry
pub mod Http
pub mod FileTransfer
pub mod Led
