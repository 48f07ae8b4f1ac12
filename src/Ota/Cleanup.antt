-- ===== src/Ota/Cleanup.antt =====
-- What the update thread of lib/edgehog_device/ota.c leaves behind when the device does not restart.
use edgehog_zephyr_device.Prelude.{◌≡◌, true, false, none, arith}
use edgehog_zephyr_device.Ota.State.{idle, FlashImg, Device, Outcomes}
use edgehog_zephyr_device.Ota.Publish.{save_state, delete_uuid}
use edgehog_zephyr_device.Ota.Thread.{
  finished, selfdestruct, deploy, give_up, download_and_deploy, ota_thread,
}

module _ {F : FlashImg} where
  -- No update runs, and the file transfers may go on.
  unfoldable pub IsReleased : Device F → Type 0
  IsReleased d = (d.running ≡ false) × (d.sem_free ≡ true)

  -- The settings hold no update.
  unfoldable pub IsForgotten : Device F → Type 0
  IsForgotten d = (d.stored_uuid ≡ none) × (d.stored_state ≡ idle)

  selfdestruct-IsReleased : (o : Outcomes) (d : Device F) → IsReleased (selfdestruct F o d)
  unfolding selfdestruct IsReleased save_state delete_uuid
  selfdestruct-IsReleased o d = ground arith

  selfdestruct-IsForgotten :
      (o : Outcomes) (d : Device F)
      → o.delete_uuid ≡ true
      → o.save_idle ≡ true
      → IsForgotten (selfdestruct F o d)
  unfolding selfdestruct IsForgotten save_state delete_uuid
  selfdestruct-IsForgotten o d e f = ground arith

  -- A thread that ends without a restart has released the device: it ends in `selfdestruct`.
  ota_thread-selfdestruct :
      (o : Outcomes) (P : Device F → Type 0) (d : Device F)
      → ((d' : Device F) → P (selfdestruct F o d'))
      → (ota_thread F o d).0 ≡ finished
      → P (ota_thread F o d).1
  unfolding ota_thread download_and_deploy give_up deploy
  ota_thread-selfdestruct o P d h e = grind (arith, h)

  -- A thread that ends without a restart leaves no update running and the semaphore free.
  pub ota_thread-IsReleased :
      (o : Outcomes) (d : Device F)
      → (ota_thread F o d).0 ≡ finished
      → IsReleased (ota_thread F o d).1
  ota_thread-IsReleased o d = ota_thread-selfdestruct o IsReleased d (selfdestruct-IsReleased o)

  -- Where its deletion of the identifier and its last save work, a thread that ends without a
  -- restart leaves settings without an identifier and with the state idle.
  pub ota_thread-IsForgotten :
      (o : Outcomes) (d : Device F)
      → o.delete_uuid ≡ true
      → o.save_idle ≡ true
      → (ota_thread F o d).0 ≡ finished
      → IsForgotten (ota_thread F o d).1
  ota_thread-IsForgotten o d u s =
      ota_thread-selfdestruct o IsForgotten d (λ d'. selfdestruct-IsForgotten o d' u s)
