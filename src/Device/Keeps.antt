-- ===== src/Device/Keeps.antt =====
-- Each callback of the link and each timer keeps the invariant.
use nrf_proxy.Base.{ℕ, ◌<◌, ◌≡◌, Bool, true, false, arith, lt→ltb}
use nrf_proxy.Platform.{fired}
use nrf_proxy.Core.Link.{proxy_should_start_adv}
use nrf_proxy.Device.State.{Host, Board, Device}
use nrf_proxy.Device.Leds.{set_led, set_status_leds, adv_blink_handler}
use nrf_proxy.Device.Relay.{relay_apply, relay_set, relay_grace_handler, relay_grace_start}
use nrf_proxy.Device.Advertising.{advertising_start, slow_failed}
use nrf_proxy.Device.Link.{
  ref_unsecured_conn, security_timeout_handler, on_connected, on_disconnected,
}
use nrf_proxy.Device.Invariant.{
  Agree-Same, Facts-IsLinked, IsLinked, Facts-IsLinked, IsReachable, Same,
}

module _ {Ring : Type 0} (board : Board) (host : Host) where
  pub on_connected-IsLinked :
      (s : Device Ring)
      → s.current_conn ≡ false
      → IsLinked board s
      → IsLinked board (on_connected board host 0 s)
  unfolding on_connected set_status_leds set_led
  on_connected-IsLinked s down v = Facts-IsLinked board _ (ground arith)

  pub failed-IsLinked :
      (s : Device Ring) (err : ℕ)
      → 0 < err
      → IsLinked board s
      → IsLinked board (on_connected board host err s)
  unfolding on_connected
  failed-IsLinked s err bad v = rw (lt→ltb 0 err bad) (Facts-IsLinked board _ (ground arith))

  pub on_disconnected-IsLinked :
      (s : Device Ring) → IsLinked board s → IsLinked board (on_disconnected board host s)
  unfolding on_disconnected relay_grace_start
  on_disconnected-IsLinked s v = Facts-IsLinked board _ (ground arith)

  pub advertising_start-IsLinked :
      (s : Device Ring) → IsLinked board s → IsLinked board (advertising_start board host s)
  unfolding advertising_start proxy_should_start_adv set_status_leds set_led
  advertising_start-IsLinked s v = Facts-IsLinked board _ (ground arith)

  -- After a start, whatever its result, someone can reach the device.
  pub advertising_start-IsReachable :
      (s : Device Ring) (w : Bool) → IsReachable board w (advertising_start board host s)
  unfolding advertising_start proxy_should_start_adv set_status_leds set_led
  advertising_start-IsReachable s w = ground arith

  pub watchdog-IsLinked :
      (s : Device Ring)
      → IsLinked board s
      → IsLinked board
          (security_timeout_handler board host (record s { security_timeout_work = fired }))
  unfolding security_timeout_handler ref_unsecured_conn
  watchdog-IsLinked s v = Facts-IsLinked board _ (ground arith)

  pub grace-IsLinked :
      (s : Device Ring)
      → IsLinked board s
      → IsLinked board (relay_grace_handler board (record s { relay_grace_work = fired }))
  unfolding relay_grace_handler relay_apply
  grace-IsLinked s v = Facts-IsLinked board _ (ground arith)

  pub slow_failed-IsLinked :
      (s : Device Ring) → IsLinked board s → IsLinked board (slow_failed board host s)
  unfolding slow_failed
  slow_failed-IsLinked s v = Facts-IsLinked board _ (ground arith)

  -- The command applied while the owner's link is encrypted.
  pub relay_set-IsLinked :
      (s : Device Ring) (enable : Bool)
      → s.current_conn ≡ true
      → s.link_secure ≡ true
      → IsLinked board s
      → IsLinked board (relay_set board enable s)
  unfolding relay_set relay_apply
  relay_set-IsLinked s enable up sec v = Facts-IsLinked board _ (ground arith)

  pub blink-Same :
      (s : Device Ring)
      → Same board s (adv_blink_handler board (record s { adv_blink_work = fired }))
  unfolding adv_blink_handler
  blink-Same s = Agree-Same board _ _ (ground arith)
