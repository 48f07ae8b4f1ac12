-- ===== src/Led/Tests.antt =====
-- The LED of lib/edgehog_device/led.c at a concrete run: an event, whose thread tests the bit before the
-- timer is started, and the expiry of the timer.
use edgehog_zephyr_device.Prelude.{◌≡◌, refl, true, false, some, none, pos, codes}
use edgehog_zephyr_device.Led.State.{
  LedThread, LedCalls, string, get_blink_entry, led_setup, clear_handle, start_blink, led_request,
  led_create, set_blink_timer, expiry_blink_timer, blink_test,
}
use edgehog_zephyr_device.Led.Steps.{here, next, create, arm, expiry, test, IsTimed, Reach-IsTimed}

abbrev off : LedThread
off = record {
  run_bit = false;
  thread = none;
  timer = false;
  starting = false;
  overwritten = false;
}

abbrev working : LedCalls
working = record { gpio_is_ready = true; gpio_configure = pos 0; thread_create = true }

abbrev created : LedThread
created = (led_create working (some (string (codes "Blink60Seconds"))) off).1

abbrev blinking : LedThread
blinking = set_blink_timer (blink_test created)

created_starts : (blink_test created).starting ≡ true
unfolding led_create led_setup led_request clear_handle start_blink get_blink_entry blink_test
created_starts = refl

blinking_timer : blinking.timer ≡ true
unfolding set_blink_timer
blinking_timer = refl

expired_overwritten : (expiry_blink_timer blinking).overwritten ≡ false
unfolding led_create led_setup led_request clear_handle start_blink get_blink_entry blink_test
    set_blink_timer expiry_blink_timer
expired_overwritten = refl

Reach-IsTimed_example : IsTimed (expiry_blink_timer blinking)
Reach-IsTimed_example = Reach-IsTimed {l = off} refl refl refl expired_overwritten (
    next
      (next
        (next (next here (create working (some (string (codes "Blink60Seconds"))) off refl))
          (test created))
        (arm (blink_test created) created_starts))
      (expiry blinking blinking_timer))
