-- ===== src/FileTransfer/Stream/Tests.antt =====
-- A write of lib/edgehog_device/file_transfer/stream.c into a pipe that takes two bytes at once.
use edgehog_zephyr_device.Prelude.{
  ℕ, suc, ◌+◌, ◌≤◌, ◌≡◌, ◌≢◌, refl, false, List, [], ◌∷◌, ◌++◌, length, take, ℤ, pos, codes, arith,
}
use edgehog_zephyr_device.FileTransfer.Stream.{Stream, WriteContext, write_append}
use edgehog_zephyr_device.FileTransfer.Stream.Written.{IsWritten, write_append-IsWritten}

unfoldable write_two : List ℕ → List ℕ × ℕ → ℤ × (List ℕ × ℕ)
write_two [] (taken, now) = (pos 0, (taken, now))
write_two (a ∷ []) (taken, now) = (pos 1, (taken ++ a ∷ [], now))
write_two (a ∷ b ∷ rest) (taken, now) = (pos 2, (taken ++ a ∷ b ∷ [], now))

write_two_takes :
    (buf : List ℕ) (w : List ℕ × ℕ) (k : ℕ)
    → (write_two buf w).0 ≡ pos (suc k)
    → (suc k ≤ length buf) × ((write_two buf w).1.0 ≡ w.0 ++ take (suc k) buf)
unfolding write_two
write_two_takes [] w k e = absurd (ground arith)
write_two_takes (a ∷ []) w k e = let same : k ≡ 0 = ground arith in rw same (omega arith, refl)
write_two_takes (a ∷ b ∷ rest) w k e =
    let same : k ≡ 1 = ground arith in rw same (omega arith, refl)

write_two_refuses :
    (buf : List ℕ) (w : List ℕ × ℕ)
    → ((k : ℕ) → (write_two buf w).0 ≢ pos (suc k))
    → (write_two buf w).1.0 ≡ w.0
unfolding write_two
write_two_refuses [] w f = refl
write_two_refuses (a ∷ []) w f = absurd (f 0 refl)
write_two_refuses (a ∷ b ∷ rest) w f = absurd (f 1 refl)

write_two_uptime : (buf : List ℕ) (w : List ℕ × ℕ) → w.1 ≤ (write_two buf w).1.1
unfolding write_two
write_two_uptime [] w = omega arith
write_two_uptime (a ∷ []) w = omega arith
write_two_uptime (a ∷ b ∷ rest) w = omega arith

abbrev narrow_pipe : Stream
narrow_pipe = record {
  World = List ℕ × ℕ;
  has_error = λ w. false;
  k_pipe_write = write_two;
  k_uptime = λ w. w.1;
  k_sleep = λ w. (w.0, w.1 + 10);
  taken_bytes = λ w. w.0;
  write_takes = write_two_takes;
  write_refuses = write_two_refuses;
  write_uptime = write_two_uptime;
  sleep_uptime = λ w. omega arith;
  sleep_takes = λ w. refl;
}

abbrev context : WriteContext
context = record { total_size = 5; transferred_size = 0 }

write_append-IsWritten_example :
    IsWritten narrow_pipe context
      (codes "abcde")
      ([], 0)
      (write_append narrow_pipe context (codes "abcde") ([], 0))
write_append-IsWritten_example = write_append-IsWritten narrow_pipe context (codes "abcde") ([], 0)
