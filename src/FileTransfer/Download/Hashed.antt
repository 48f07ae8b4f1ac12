-- ===== src/FileTransfer/Download/Hashed.antt =====
-- The digest of a download takes every byte of the response
-- (lib/edgehog_device/file_transfer/download.c).
use edgehog_zephyr_device.Prelude.{
  ℕ, ◌≡◌, refl, sym, ◌∙◌, ap, List, [], ◌∷◌, ◌++◌, append_assoc, append-nil, Option, none, some,
  arith,
}
use edgehog_zephyr_device.Result.{ok}
use edgehog_zephyr_device.Http.Response.{HttpResponse, Chunk, chunk_of}
use edgehog_zephyr_device.Http.Released.{Accepts}
use edgehog_zephyr_device.FileTransfer.Message.Types.{
  Encoding, no_encoding, lz4, tar, tar_lz4, unsupported_encoding,
}
use edgehog_zephyr_device.FileTransfer.Download.Data.{FileWriteCbks, Crypto, Lz4, Data}
use edgehog_zephyr_device.FileTransfer.Download.Chunks.{
  written_block, add_to_digest, process_uncompressed_chunk, write_blocks, decompress_chunk,
  with_decomp, process_compressed_chunk, process_tar_chunk, process_chunk, request_cbk,
}

-- The bytes of a response, one fragment after the other.
pub body : List HttpResponse → List ℕ
body [] = []
body (rsp ∷ rest) = (chunk_of rsp).bytes ++ body rest

module _ {F D : Type 0} (cbks : FileWriteCbks F) (z : Lz4 D) where
  -- The digest's fields stay as they are.
  abbrev Keeps : Data F D → Data F D → Type 0
  Keeps d d' = (d'.hashed ≡ d.hashed) × (d'.expected_digest ≡ d.expected_digest)

  write_blocks-Keeps :
      (blocks : List (List ℕ)) (d : Data F D) → Keeps d (write_blocks cbks blocks d).1
  unfolding write_blocks written_block
  write_blocks-Keeps [] d = (refl, refl)
  write_blocks-Keeps (block ∷ blocks) d =
      let file = (cbks.file_append_chunk block d.file).1 in
      ground (arith, write_blocks-Keeps blocks (written_block block file d))

  uncompressed-Keeps :
      (chunk : Chunk) (d : Data F D) → Keeps d (process_uncompressed_chunk cbks chunk d).1
  unfolding process_uncompressed_chunk
  uncompressed-Keeps chunk d = ground arith

  decompress_chunk-Keeps :
      (chunk : Chunk) (decomp : D) (d : Data F D)
      → Keeps d (decompress_chunk cbks z chunk decomp d).1
  unfolding decompress_chunk
  decompress_chunk-Keeps chunk decomp d =
      let r = z.decompress chunk.bytes decomp in
      let started : Data F D = record d { decomp = some r.2 } in
      ground (arith, write_blocks-Keeps r.0 started)

  with_decomp-Keeps :
      (o : Option D) (chunk : Chunk) (d : Data F D) → Keeps d (with_decomp cbks z o chunk d).1
  unfolding with_decomp
  with_decomp-Keeps (some decomp) chunk d = decompress_chunk-Keeps chunk decomp d
  with_decomp-Keeps none chunk d = ground (arith, decompress_chunk-Keeps chunk z.fresh d)

  tar-Keeps : (chunk : Chunk) (d : Data F D) → Keeps d (process_tar_chunk cbks chunk d).1
  unfolding process_tar_chunk
  tar-Keeps chunk d = ground arith

  process_chunk-Keeps :
      (e : Encoding) (chunk : Chunk) (d : Data F D) → Keeps d (process_chunk cbks z e chunk d).1
  unfolding process_chunk process_compressed_chunk
  process_chunk-Keeps lz4 chunk d = with_decomp-Keeps d.decomp chunk d
  process_chunk-Keeps tar chunk d = tar-Keeps chunk d
  process_chunk-Keeps no_encoding chunk d = uncompressed-Keeps chunk d
  process_chunk-Keeps tar_lz4 chunk d = uncompressed-Keeps chunk d
  process_chunk-Keeps unsupported_encoding chunk d = uncompressed-Keeps chunk d

  -- A fragment that is accepted is added to the digest.
  request_cbk-hashed :
      (crypto : Crypto) (chunk : Chunk) (d : Data F D) {digest : List ℕ}
      → d.expected_digest ≡ some digest
      → (request_cbk cbks z crypto chunk d).0 ≡ ok
      → let d' = (request_cbk cbks z crypto chunk d).1 in
        (d'.hashed ≡ d.hashed ++ chunk.bytes) × (d'.expected_digest ≡ some digest)
  unfolding request_cbk add_to_digest
  request_cbk-hashed crypto chunk d {digest} e h =
      let added : Data F D = record d {
        hashed = add_to_digest d.expected_digest d.hashed chunk.bytes;
      } in
      ground (arith, process_chunk-Keeps d.encoding chunk added)

  -- The digest of a response that is accepted whole has seen its body.
  pub Accepts-hashed :
      (crypto : Crypto) (responses : List HttpResponse) (d v : Data F D) {digest : List ℕ}
      → d.expected_digest ≡ some digest
      → Accepts (request_cbk cbks z crypto) responses d v
      → v.hashed ≡ d.hashed ++ body responses
  unfolding body
  Accepts-hashed crypto [] d v e a =
      ap (λ (x : Data F D). x.hashed) (sym a) ∙ sym (append-nil d.hashed)
  Accepts-hashed crypto (rsp ∷ rest) d v {digest} e (status, accepted, later) =
      let chunk = chunk_of rsp in
      let (hashed, kept) = request_cbk-hashed crypto chunk d e accepted in
      let d' = (request_cbk cbks z crypto chunk d).1 in
      Accepts-hashed crypto rest d' v kept later
      ∙ ap (λ x. x ++ body rest) hashed
      ∙ append_assoc d.hashed chunk.bytes (body rest)
