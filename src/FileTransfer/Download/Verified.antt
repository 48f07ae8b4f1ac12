-- ===== src/FileTransfer/Download/Verified.antt =====
-- What a completed download of lib/edgehog_device/file_transfer/download.c guarantees, and what the
-- server is told of each end.
use edgehog_zephyr_device.Prelude.{
  ℕ, ◌≤◌, ◌<◌, ◌==◌, ◌≡◌, sym, ap, subst, List, [], ◌∷◌, length, take, drop, Option, none, some,
  Bool-cases, inl, inr, bytes_eq, codes, arith,
}
use edgehog_zephyr_device.Result.{EdgehogResult, is_ok}
use edgehog_zephyr_device.Http.Response.{HttpResponse, Chunk, is_failure_status, chunk_of}
use edgehog_zephyr_device.Http.Request.{http_get}
use edgehog_zephyr_device.Http.Released.{Accepts, http_get-Accepts}
use edgehog_zephyr_device.FileTransfer.Message.Types.{Message}
use edgehog_zephyr_device.FileTransfer.Message.Sent.{bytes_eq_eq}
use edgehog_zephyr_device.FileTransfer.Service.Requests.{no_error}
use edgehog_zephyr_device.FileTransfer.Download.Data.{
  FileWriteCbks, HashStatus, verified, Crypto, Data,
}
use edgehog_zephyr_device.FileTransfer.Download.Chunks.{request_cbk}
use edgehog_zephyr_device.FileTransfer.Download.Handle.{
  Backend, Surroundings, completed, is_tar, status_errno, verify_bytes, verify_digest, is_no_error,
  exit, get_callbacks, data_of, check_digest, download, with_file, with_backend,
  handle_server_to_device,
}
use edgehog_zephyr_device.FileTransfer.Download.Hashed.{body, Accepts-hashed}

-- The digest "sha256:" with 64 digits, which stand for the hash of the bytes.
pub record IsDigest (crypto : Crypto) (bytes digest : List ℕ) : Type 0 where
  pub prefixed : take 7 digest ≡ codes "sha256:"
  pub sized : length (drop 7 digest) ≡ 64
  pub hash : crypto.hex2bin (drop 7 digest) ≡ some (crypto.sha256 bytes)

status_errno_lem : (s : HashStatus) → status_errno s ≡ no_error → s ≡ verified
unfolding status_errno
status_errno_lem s h = ground arith

verify_bytes_lem :
    (crypto : Crypto) (hashed : List ℕ) (o : Option (List ℕ))
    → verify_bytes crypto hashed o ≡ no_error
    → o ≡ some (crypto.sha256 hashed)
unfolding verify_bytes
verify_bytes_lem crypto hashed none h = cc
verify_bytes_lem crypto hashed (some expected) h =
    let accepted = status_errno_lem (crypto.hash_verify hashed expected) (ground arith) in
    ap some (sym (crypto.verify_sound hashed expected accepted))

verify_digest-IsDigest :
    (crypto : Crypto) (hashed digest : List ℕ)
    → verify_digest crypto hashed digest ≡ no_error
    → IsDigest crypto hashed digest
unfolding verify_digest
verify_digest-IsDigest crypto hashed digest h =
    elim (Bool-cases (bytes_eq (take 7 digest) (codes "sha256:"))) [
      | inr p ↦ absurd (ground arith)
      | inl p ↦ elim (Bool-cases (length (drop 7 digest) == 64)) [
        | inr q ↦ absurd (ground arith)
        | inl q ↦ record {
          prefixed = bytes_eq_eq (take 7 digest) (codes "sha256:") p;
          sized = ground arith;
          hash = verify_bytes_lem crypto hashed (crypto.hex2bin (drop 7 digest)) (rw (p, q) at h);
        }
      ]
    ]

-- Every fragment of a response has a status from 200 to 299.
abbrev pub Succeeds : List HttpResponse → Type 0
Succeeds [] = Unit
Succeeds (rsp ∷ rest) = (200 ≤ rsp.status_code) × (rsp.status_code < 300) × Succeeds rest

Accepts-Succeeds :
    {U : Type 0} (cbk : Chunk → U → EdgehogResult × U) (responses : List HttpResponse) (u v : U)
    → Accepts cbk responses u v
    → Succeeds responses
unfolding is_failure_status
Accepts-Succeeds cbk [] u v a = tt
Accepts-Succeeds cbk (rsp ∷ rest) u v (status, accepted, later) =
    (ground arith, ground arith, Accepts-Succeeds cbk rest (cbk (chunk_of rsp) u).1 v later)

module _ {F D : Type 0} where
  check_digest_lem :
      (crypto : Crypto) (cbks : FileWriteCbks F) (msg : Message) (o : Option (List ℕ))
      (d : Data F D) {digest : List ℕ} {f : F}
      → o ≡ some digest
      → (check_digest crypto cbks msg o d).0 ≡ completed f
      → IsDigest crypto d.hashed digest
  unfolding check_digest exit
  check_digest_lem crypto cbks msg none d e h = cc
  check_digest_lem crypto cbks msg (some given) d {digest} e h =
      let same : given ≡ digest = cc in
      elim (Bool-cases (is_no_error (verify_digest crypto d.hashed given))) [
        | inr p ↦ absurd (ground arith)
        | inl p ↦
            rw (← same)
              (verify_digest-IsDigest crypto d.hashed given (unfold is_no_error in ground arith))
      ]

  -- A download with a digest that is completed.
  abbrev pub IsVerified : Surroundings F D → List ℕ → Type 0
  IsVerified w digest = IsDigest w.crypto (body w.responses) digest × Succeeds w.responses

  download-IsVerified :
      (w : Surroundings F D) (cbks : FileWriteCbks F) (msg : Message) (file : F) {digest : List ℕ}
      (f : F)
      → msg.digest ≡ some digest
      → (download w cbks msg file).0 ≡ completed f
      → IsVerified w digest
  unfolding download exit data_of
  download-IsVerified w cbks msg file {digest} f e h =
      let cbk = request_cbk cbks w.decompression w.crypto in
      let start = data_of msg file in
      let r = http_get cbk w.tls w.calls w.responses w.client_failed start w.held in
      elim (Bool-cases (is_ok r.0)) [
        | inr bad ↦ absurd (ground arith)
        | inl good ↦
            let accepted : Accepts cbk w.responses start r.1.user =
              http_get-Accepts cbk w.tls w.calls w.responses w.client_failed start w.held
                (ground arith) in
            let hashed =
              Accepts-hashed cbks w.decompression w.crypto w.responses start r.1.user e accepted in
            let checked = check_digest_lem w.crypto cbks msg msg.digest r.1.user e (rw good at h) in
            (
              subst (λ bytes. IsDigest w.crypto bytes digest) hashed checked,
              Accepts-Succeeds cbk w.responses start r.1.user accepted,
            )
      ]

  with_file-IsVerified :
      (w : Surroundings F D) (cbks : FileWriteCbks F) (msg : Message) (file : F) {digest : List ℕ}
      (f : F)
      → msg.digest ≡ some digest
      → (with_file w cbks msg file).0 ≡ completed f
      → IsVerified w digest
  unfolding with_file exit
  with_file-IsVerified w cbks msg file f e h =
      download-IsVerified w cbks msg file f e (ground arith)

  with_backend-IsVerified :
      (w : Surroundings F D) (msg : Message) (o : Option (Backend F)) {digest : List ℕ} (f : F)
      → msg.digest ≡ some digest
      → (with_backend w msg o).0 ≡ completed f
      → IsVerified w digest
  unfolding with_backend exit
  with_backend-IsVerified w msg none f e h = cc
  with_backend-IsVerified w msg (some b) f e h =
      let file = (b.file_init msg.file_size_bytes msg.location (is_tar msg.encoding)).1 in
      with_file-IsVerified w b.cbks msg file f e (ground arith)

  -- A download with a digest is completed only if the digest is "sha256:" followed by the 64 digits
  -- of the hash of the whole body of the response, and every fragment of the response has a status of success.
  pub handle_server_to_device-IsVerified :
      (w : Surroundings F D) (msg : Message) {digest : List ℕ} (f : F)
      → msg.digest ≡ some digest
      → (handle_server_to_device w msg).0 ≡ completed f
      → IsVerified w digest
  unfolding handle_server_to_device exit
  handle_server_to_device-IsVerified w msg f e h =
      with_backend-IsVerified w msg (get_callbacks w msg.location_type) f e (ground arith)
