-- ===== src/FileTransfer/Stream.antt =====
-- The writing end of a stream, lib/edgehog_device/file_transfer/stream.c: `write_append`, which waits
-- for the application to read.
pub mod Written
mod Tests
use edgehog_zephyr_device.Prelude.{
  ℕ, zero, suc, ◌+◌, ◌*◌, ◌-◌, ◌≤◌, ◌≡◌, ◌≢◌, Bool, List, [], ◌∷◌, ◌++◌, length, take, drop, leb,
  ◌==◌, ◌%◌, Option, none, some, ℤ, pos, negsuc, if◌then◌else◌,
}
use edgehog_zephyr_device.Result.{EdgehogResult, ok, internal_error}
use edgehog_zephyr_device.Ztar.Core.{size_mod}

-- The pipe and the event that the application shares, and the clock of the operating system.
-- `k_pipe_write` without waiting takes bytes from the front of a buffer and returns their number, or
-- takes none; `taken_bytes` are those that the pipe has taken so far. `k_sleep` waits ten milliseconds at least.
pub record Stream : Type 1 where
  pub World : Type 0
  pub has_error : World → Bool
  pub k_pipe_write : List ℕ → World → ℤ × World
  pub k_uptime : World → ℕ
  pub k_sleep : World → World
  pub taken_bytes : World → List ℕ
  pub write_takes :
      (buf : List ℕ) (w : World) (k : ℕ)
      → (k_pipe_write buf w).0 ≡ pos (suc k)
      → (suc k ≤ length buf)
        × (taken_bytes (k_pipe_write buf w).1 ≡ taken_bytes w ++ take (suc k) buf)
  pub write_refuses :
      (buf : List ℕ) (w : World)
      → ((k : ℕ) → (k_pipe_write buf w).0 ≢ pos (suc k))
      → taken_bytes (k_pipe_write buf w).1 ≡ taken_bytes w
  pub write_uptime : (buf : List ℕ) (w : World) → k_uptime w ≤ k_uptime (k_pipe_write buf w).1
  pub sleep_uptime : (w : World) → k_uptime w + 10 ≤ k_uptime (k_sleep w)
  pub sleep_takes : (w : World) → taken_bytes (k_sleep w) ≡ taken_bytes w

-- PIPE_TIMEOUT_MS
abbrev pub pipe_timeout : ℕ
pipe_timeout = 2000

-- What the loop does with a result of `k_pipe_write`. EAGAIN is 11.
pub data Attempt : Type 0 where
  wrote : ℕ → Attempt
  full broken : Attempt

unfoldable pub attempt_of : ℤ → Attempt
attempt_of (pos zero) = full
attempt_of (pos (suc k)) = wrote (suc k)
attempt_of (negsuc n) = if n == 10 then full else broken

-- `write_ctx_t` without the pipe and the event.
pub record WriteContext : Type 0 where
  pub total_size : ℕ
  pub transferred_size : ℕ

module _ (S : Stream) where
  -- The test of the time, before the next round.
  unfoldable pub until_timeout :
      ℕ
      → Stream.World S
      → Option (EdgehogResult × Stream.World S)
      → Option (EdgehogResult × Stream.World S)
  until_timeout start w next =
      if leb pipe_timeout (Stream.k_uptime S w - start) then some (internal_error, w) else next

  -- The wait at the end of a round, where bytes are left.
  unfoldable pub pause : List ℕ → Stream.World S → Stream.World S
  pause [] w = w
  pause (b ∷ rest) w = Stream.k_sleep S w

  -- The loop, with the start of the time and the bytes that are left; `none` where the fuel runs out.
  unfoldable pub append_loop :
      ℕ → ℕ → List ℕ → Stream.World S → Option (EdgehogResult × Stream.World S)
  append_loop zero start rest w = none
  append_loop (suc n) start [] w = some (ok, w)
  append_loop (suc n) start (b ∷ rest) w =
      let whole : List ℕ = b ∷ rest in
      let (ret, w') = Stream.k_pipe_write S whole w in
      let next : Option (EdgehogResult × Stream.World S) = elim (attempt_of ret) [
        | broken ↦ some (internal_error, w')
        | full ↦ until_timeout start w' (append_loop n start whole (pause whole w'))
        | wrote k ↦
            let start' = Stream.k_uptime S w' in
            let rest' = drop k whole in
            until_timeout start' w' (append_loop n start' rest' (pause rest' w'))
      ] in
      if Stream.has_error S w then some (internal_error, w) else next

  -- The end: the bytes of a chunk that is written whole are counted.
  unfoldable pub count_written :
      WriteContext
      → ℕ
      → Option (EdgehogResult × Stream.World S)
      → Option (EdgehogResult × WriteContext × Stream.World S)
  count_written ctx n none = none
  count_written ctx n (some (ok, w)) =
      some (ok, record ctx { transferred_size = (ctx.transferred_size + n) % size_mod }, w)
  count_written ctx n (some (eres, w)) = some (eres, ctx, w)

  -- `write_append`: a byte is taken, or 201 rounds of ten milliseconds are over.
  unfoldable pub write_append :
      WriteContext
      → List ℕ
      → Stream.World S
      → Option (EdgehogResult × WriteContext × Stream.World S)
  write_append ctx chunk w =
      count_written ctx (length chunk)
        (append_loop (201 * length chunk + 201) (Stream.k_uptime S w) chunk w)
