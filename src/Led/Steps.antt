-- ===== src/Led/Steps.antt =====
-- The LED in every order of the events, the timer and the thread (lib/edgehog_device/led.c).
use edgehog_zephyr_device.Prelude.{
  ◌≡◌, ◌⊎◌, inl, inr, Bool-cases, true, false, ◌&&◌, ◌||◌, Option, none, some, arith,
}
use edgehog_zephyr_device.Result.{ok, is_ok}
use edgehog_zephyr_device.Led.State.{
  LedThread, LedCalls, LedValue, is_there, led_setup, clear_handle, start_blink, led_request,
  led_create, set_blink_timer, led_event, expiry_blink_timer, blink_test,
}

-- The events come one after the other, and each is two steps, with those of the timer and of the new
-- thread, which has the highest priority, in between. The timer expires only while it runs. Once the
-- handle of a thread that had not ended is cleared, anything may follow.
pub data Step : LedThread → LedThread → Type 0 where
  create :
      (calls : LedCalls) (value : Option LedValue) (l : LedThread)
      → l.starting ≡ false
      → Step l (led_create calls value l).1
  arm : (l : LedThread) → l.starting ≡ true → Step l (set_blink_timer l)
  expiry : (l : LedThread) → l.timer ≡ true → Step l (expiry_blink_timer l)
  test : (l : LedThread) → Step l (blink_test l)
  corrupted : (l m : LedThread) → l.overwritten ≡ true → m.overwritten ≡ true → Step l m

pub data Reach (l : LedThread) : LedThread → Type 0 where
  here : Reach l l
  next : {m n : LedThread} → Reach l m → Step m n → Reach l n

-- The LED is busy exactly while the timer runs or is about to be started by an event, never both, and
-- a thread is there then.
pub record IsTimed (l : LedThread) : Type 0 where
  pub timed : l.run_bit ≡ (l.timer || l.starting)
  pub once : (l.timer && l.starting) ≡ false
  pub blinking : (l.run_bit ≡ false) ⊎ (is_there l.thread ≡ true)

led_create-IsTimed :
    (calls : LedCalls) (value : Option LedValue) (l : LedThread)
    → l.starting ≡ false
    → IsTimed l
    → IsTimed (led_create calls value l).1
unfolding led_create led_setup led_request clear_handle start_blink
led_create-IsTimed calls none l h t = t
led_create-IsTimed calls (some value) l h t = ground arith

Step-IsTimed : {l m : LedThread} → Step l m → m.overwritten ≡ false → IsTimed l → IsTimed m
unfolding set_blink_timer expiry_blink_timer blink_test
Step-IsTimed (create calls value l h) o t = led_create-IsTimed calls value l h t
Step-IsTimed (arm l h) o t = ground arith
Step-IsTimed (expiry l h) o t = ground arith
Step-IsTimed (test l) o t = ground arith
Step-IsTimed (corrupted l m h k) o t = absurd (ground arith)

led_create-overwritten :
    (calls : LedCalls) (value : Option LedValue) (l : LedThread)
    → (led_create calls value l).1.overwritten ≡ false
    → l.overwritten ≡ false
unfolding led_create led_setup led_request clear_handle start_blink
led_create-overwritten calls none l o = o
led_create-overwritten calls (some value) l o = ground arith

-- No step undoes a cleared handle.
Step-overwritten : {l m : LedThread} → Step l m → m.overwritten ≡ false → l.overwritten ≡ false
unfolding set_blink_timer expiry_blink_timer blink_test
Step-overwritten (create calls value l h) o = led_create-overwritten calls value l o
Step-overwritten (arm l h) o = o
Step-overwritten (expiry l h) o = o
Step-overwritten (test l) o = ground arith
Step-overwritten (corrupted l m h k) o = absurd (ground arith)

-- From a state that is not busy, with no timer and no event, in every order of the two halves of the
-- events, of expiries and of tests of the thread, as long as no event clears the handle of a thread that
-- has not ended: the LED refuses events as busy exactly while its timer runs or an event is about to
-- start it, and while it is busy a thread is there that tests the bit.
pub Reach-IsTimed :
    {l m : LedThread}
    → l.run_bit ≡ false
    → l.timer ≡ false
    → l.starting ≡ false
    → m.overwritten ≡ false
    → Reach l m
    → IsTimed m
Reach-IsTimed p q s o here = ground arith
Reach-IsTimed p q s o (next r st) =
    Step-IsTimed st o (Reach-IsTimed p q s (Step-overwritten st o) r)

led_create-starting :
    (calls : LedCalls) (value : Option LedValue) (l : LedThread)
    → (led_create calls value l).0 ≡ ok
    → (led_create calls value l).1.starting ≡ true
unfolding led_create led_setup led_request clear_handle start_blink
led_create-starting calls none l h = cc
led_create-starting calls (some value) l h = ground arith

-- An event that nothing interrupts is one or two of the steps.
led_event-Reach :
    (calls : LedCalls) (value : Option LedValue) (l : LedThread)
    → l.starting ≡ false
    → Reach l (led_event calls value l).1
unfolding led_event
led_event-Reach calls value l h =
    let l' = (led_create calls value l).1 in
    let created = next here (create calls value l h) in
    elim (Bool-cases (is_ok (led_create calls value l).0)) [
      | inl p ↦
          let succeeded : (led_create calls value l).0 ≡ ok = ground arith in
          rw p (next created (arm l' (led_create-starting calls value l succeeded)))
      | inr p ↦ rw p created
    ]
