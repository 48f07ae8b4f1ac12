-- ===== src/FileTransfer/Download/Chunks.antt =====
-- The chunks of a download, lib/edgehog_device/file_transfer/download.c: digest, decompression,
-- archive and storage, in a build with compression and archives.
use edgehog_zephyr_device.Prelude.{
  ℕ, ltb, ◌==◌, Bool, true, false, not, ◌&&◌, List, [], ◌∷◌, ◌++◌, length, Option, none, some,
  if◌then◌else◌,
}
use edgehog_zephyr_device.Result.{EdgehogResult, ok, is_ok, http_request_aborted}
use edgehog_zephyr_device.Ztar.Core
use edgehog_zephyr_device.Ztar.Core.{trailer_size}
use edgehog_zephyr_device.FileTransfer.Download.Archive.{is_exhausted, reader_of, read_archive}
use edgehog_zephyr_device.Http.Response.{Chunk}
use edgehog_zephyr_device.FileTransfer.Message.Types.{Encoding, lz4, tar}
use edgehog_zephyr_device.FileTransfer.Progress.{update_progress}
use edgehog_zephyr_device.FileTransfer.Service.Requests.{eio, enomem}
use edgehog_zephyr_device.FileTransfer.Download.Data.{FileWriteCbks, Crypto, Lz4, Data}

-- Whether the digest takes a chunk: `psa_hash_update` of the bytes.
unfoldable pub digest_takes : Crypto → Option (List ℕ) → List ℕ → List ℕ → Bool
digest_takes crypto none hashed bytes = true
digest_takes crypto (some digest) hashed [] = true
digest_takes crypto (some digest) hashed bytes = crypto.hash_update_works hashed bytes

unfoldable pub add_to_digest : Option (List ℕ) → List ℕ → List ℕ → List ℕ
add_to_digest none hashed bytes = hashed
add_to_digest (some digest) hashed bytes = hashed ++ bytes

-- A block that `decompression_write_cbk` wrote.
unfoldable pub written_block : {F D : Type 0} → List ℕ → F → Data F D → Data F D
written_block block file d = record d {
  file = file;
  progress = update_progress d.progress (length block) false;
}

module _ {F D : Type 0} (file_cbks : FileWriteCbks F) where
  -- `process_uncompressed_chunk`
  unfoldable pub process_uncompressed_chunk : Chunk → Data F D → EdgehogResult × Data F D
  process_uncompressed_chunk chunk d =
      let (eres, file) = file_cbks.file_append_chunk chunk.bytes d.file in
      let written : Data F D = record d { file = file } in
      if is_ok eres
      then (
        ok,
        record written {
          progress = update_progress d.progress (length chunk.bytes) chunk.last_chunk;
        },
      )
      else (eres, record written { posix_errno = eio })

  -- `decompression_write_cbk` for the blocks that the decompression gives out, until one fails.
  unfoldable pub write_blocks : List (List ℕ) → Data F D → Bool × Data F D
  write_blocks [] d = (true, d)
  write_blocks (block ∷ blocks) d =
      let (eres, file) = file_cbks.file_append_chunk block d.file in
      let later = write_blocks blocks (written_block block file d) in
      if is_ok eres then later else (false, record d { file = file; posix_errno = eio })

  module _ (z : Lz4 D) where
    -- `process_compressed_chunk` once the context is there.
    unfoldable pub decompress_chunk : Chunk → D → Data F D → EdgehogResult × Data F D
    decompress_chunk chunk decomp d =
        let (blocks, went_well, decomp') = z.decompress chunk.bytes decomp in
        let (written, d') = write_blocks blocks (record d { decomp = some decomp' }) in
        let kept : Data F D =
          if length chunk.bytes == 0 then record d { decomp = some decomp } else d' in
        if not (length chunk.bytes == 0) && not (written && went_well)
        then (http_request_aborted, record d' { posix_errno = eio; decomp = none })
        else if chunk.last_chunk
        then (ok, record kept { progress = update_progress kept.progress 0 true; decomp = none })
        else (ok, kept)

    unfoldable pub with_decomp : Option D → Chunk → Data F D → EdgehogResult × Data F D
    with_decomp (some decomp) chunk d = decompress_chunk chunk decomp d
    with_decomp none chunk d =
        if z.init_works
        then decompress_chunk chunk z.fresh d
        else (http_request_aborted, record d { posix_errno = enomem })

    unfoldable pub process_compressed_chunk : Chunk → Data F D → EdgehogResult × Data F D
    process_compressed_chunk chunk d = with_decomp d.decomp chunk d

  -- `process_tar_chunk`
  unfoldable pub process_tar_chunk : Chunk → Data F D → EdgehogResult × Data F D
  process_tar_chunk chunk d =
      let (zres, s) = read_archive chunk (reader_of file_cbks d.unpack (d.file, d.posix_errno)) in
      let read : Data F D = record d {
        file = s.user_data.0;
        posix_errno = s.user_data.1;
        unpack = some s;
      } in
      let failed : EdgehogResult × Data F D =
        (http_request_aborted, record read { posix_errno = eio }) in
      if not (Core.is_ok zres) && not (is_exhausted zres)
      then failed
      else if chunk.last_chunk
          && not (is_exhausted zres)
          && ltb s.bytes_processed_in_trailer trailer_size
      then failed
      else (
        ok,
        record read { progress = update_progress d.progress (length chunk.bytes) chunk.last_chunk },
      )

  module _ (z : Lz4 D) where
    unfoldable pub process_chunk : Encoding → Chunk → Data F D → EdgehogResult × Data F D
    process_chunk lz4 chunk d = process_compressed_chunk z chunk d
    process_chunk tar chunk d = process_tar_chunk chunk d
    process_chunk _ chunk d = process_uncompressed_chunk chunk d

    -- `http_get_server_to_device_request_cbk`
    unfoldable pub request_cbk : Crypto → Chunk → Data F D → EdgehogResult × Data F D
    request_cbk crypto chunk d =
        let hashed = add_to_digest d.expected_digest d.hashed chunk.bytes in
        if digest_takes crypto d.expected_digest d.hashed chunk.bytes
        then process_chunk d.encoding chunk (record d { hashed = hashed })
        else (http_request_aborted, record d { posix_errno = eio })
