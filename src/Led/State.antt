-- ===== src/Led/State.antt =====
-- `edgehog_led_event` of lib/edgehog_device/led.c, for a board with the LED's node. The LED's state
-- keeps its run bit, the blinking thread and the one-shot timer (lib/edgehog_device/include/led.h).
use edgehog_zephyr_device.Prelude.{
  ℕ, Bool, true, false, not, ◌||◌, List, Option, none, some, ℤ, is_negative, bytes_eq, codes,
  if◌then◌else◌,
}
use edgehog_zephyr_device.Result.{
  EdgehogResult, ok, is_ok, astarte_error, led_device_is_not_ready, led_configure_error,
  led_already_in_progress, thread_create_error,
}

-- The three entry points.
pub data Blink : Type 0 where
  single_blink double_blink slow_blink : Blink

-- `led_thread_t`: the thread is there from its creation until it ends, and the timer runs from its
-- start until it expires. `starting` says that an event stands between the creation of its thread and
-- the start of the timer, `overwritten` that the handle of a thread that had not ended was cleared.
pub record LedThread : Type 0 where
  pub run_bit : Bool
  pub thread : Option Blink
  pub timer : Bool
  pub starting : Bool
  pub overwritten : Bool

-- The outcomes of the calls of an event.
pub record LedCalls : Type 0 where
  pub gpio_is_ready : Bool
  pub gpio_configure : ℤ
  pub thread_create : Bool

-- The value of an event.
pub data LedValue : Type 0 where
  string : List ℕ → LedValue
  other_value : LedValue

-- `get_blink_entry`; `none` for its error.
unfoldable pub get_blink_entry : LedValue → Option Blink
get_blink_entry (string s) =
    if bytes_eq s (codes "Blink60Seconds")
    then some single_blink
    else if bytes_eq s (codes "DoubleBlink60Seconds")
    then some double_blink
    else if bytes_eq s (codes "SlowBlink60Seconds")
    then some slow_blink
    else none
get_blink_entry other_value = none

-- `edgehog_led_setup`
unfoldable pub led_setup : LedCalls → EdgehogResult
led_setup calls =
    if not calls.gpio_is_ready
    then led_device_is_not_ready
    else if is_negative calls.gpio_configure
    then led_configure_error
    else ok

abbrev pub is_there {ℓ} : {A : Type ℓ} → Option A → Bool
is_there none = false
is_there (some a) = true

-- The `memset` of the thread's handle.
unfoldable pub clear_handle : LedThread → LedThread
clear_handle l = record l { thread = none; overwritten = l.overwritten || is_there l.thread }

-- The choice of the entry point and the creation of the thread, with the run bit set.
unfoldable pub start_blink : LedCalls → Option Blink → LedThread → EdgehogResult × LedThread
start_blink calls none l = (astarte_error, record l { run_bit = false })
start_blink calls (some blink) l =
    if not calls.thread_create
    then (thread_create_error, record l { run_bit = false })
    else (ok, record l { thread = some blink; starting = true })

-- `edgehog_led_event` behind the set-up, up to the creation of the thread. The second test of the bit
-- finds it clear, since no other code sets it.
unfoldable pub led_request : LedCalls → LedValue → LedThread → EdgehogResult × LedThread
led_request calls value l =
    if l.run_bit
    then (led_already_in_progress, l)
    else start_blink calls (get_blink_entry value) (clear_handle (record l { run_bit = true }))

-- `edgehog_led_event` up to the creation of the thread; a null pointer is `none`.
unfoldable pub led_create : LedCalls → Option LedValue → LedThread → EdgehogResult × LedThread
led_create calls none l = (astarte_error, l)
led_create calls (some value) l = with_setup (led_setup calls)
  where
    with_setup : EdgehogResult → EdgehogResult × LedThread
    with_setup ok = led_request calls value l
    with_setup eres = (eres, l)

-- `set_blink_timer`, the end of an event that succeeds.
unfoldable pub set_blink_timer : LedThread → LedThread
set_blink_timer l = record l { timer = true; starting = false }

-- `edgehog_led_event` where no other thread runs in between.
unfoldable pub led_event : LedCalls → Option LedValue → LedThread → EdgehogResult × LedThread
led_event calls value l =
    let (eres, l') = led_create calls value l in
    if is_ok eres then (eres, set_blink_timer l') else (eres, l')

-- `expiry_blink_timer`
unfoldable pub expiry_blink_timer : LedThread → LedThread
expiry_blink_timer l = record l { run_bit = false; timer = false }

-- The test of the loop of `blink_entry_point`: the thread ends where the bit is clear.
unfoldable pub blink_test : LedThread → LedThread
blink_test l = if l.run_bit then l else record l { thread = none }
