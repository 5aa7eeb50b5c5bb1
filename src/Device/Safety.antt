-- ===== src/Device/Safety.antt =====
-- The device over every history of its surroundings.
use nrf_proxy.Base.{◌≡◌, refl, inl, inr, Bool, false, not, arith, if_both}
use nrf_proxy.Platform.{Platform, fired}
use nrf_proxy.RingBuf.{RingBuf}
use nrf_proxy.Bridge.Receive.{retry_handler}
use nrf_proxy.Bridge.Callback.{uart_cb}
use nrf_proxy.Device.State.{Host, Board, Device}
use nrf_proxy.Device.Leds.{set_led, set_status_leds}
use nrf_proxy.Device.Relay.{relay_apply, relay_grace_handler}
use nrf_proxy.Device.Advertising.{adv_retry_handler}
use nrf_proxy.Device.Link.{
  ref_unsecured_conn, security_timeout_handler, pairing_complete, on_connected, on_recycled,
  refresh_locked_mode,
}
use nrf_proxy.Device.Invariant.{
  Facts-IsLinked, IsLinked, IsReachable, Same, Same-IsLinked, Same-IsReachable,
}
use nrf_proxy.Device.Keeps.{
  on_connected-IsLinked, failed-IsLinked, on_disconnected-IsLinked, advertising_start-IsLinked,
  advertising_start-IsReachable, watchdog-IsLinked, grace-IsLinked, blink-Same,
}
use nrf_proxy.Device.Timers.{slow-IsLinked, slow-IsReachable, refresh-Same}
use nrf_proxy.Device.Traffic.{bridge-Same, received-IsLinked, received-IsReachable}
use nrf_proxy.Device.Turns.{writer_step-IsLinked, writer_step-IsReachable}
use nrf_proxy.Device.Secured.{secured-IsLinked, secured-IsReachable}
use nrf_proxy.Device.System.{
  World, Gap, quiet, connects, recycles, Step, link_made, link_failed, link_lost, recycled, secured,
  paired, received, writer_runs, uart_event, rx_retry_due, blink_due, slow_due, retry_due,
  grace_due, watchdog_due, Steps, Steps-keeps,
}

module _ (R : RingBuf) (p : Platform) (board : Board) (host : Host) where
  open R use {Ring}

  pub pairing_complete-Same :
      (s : Device Ring) (bonded : Bool) → Same board s (pairing_complete board host bonded s)
  unfolding pairing_complete
  pairing_complete-Same s bonded =
      if_both (Same board s) (not bonded) s (refresh_locked_mode board host s)
        (λ _. bridge-Same board host s s.bridge) (λ _. refresh-Same board host s)

  Gap-IsLinked :
      (gap : Device Ring → Device Ring)
      → Gap R p board host gap
      → (t : Device Ring) → t.current_conn ≡ false
      → IsLinked board t
      → IsLinked board (gap t)
  Gap-IsLinked _ quiet t down v = v
  Gap-IsLinked _ connects t down v = on_connected-IsLinked board host t down v
  Gap-IsLinked _ recycles t down v = unfold on_recycled in advertising_start-IsLinked board host t v

  slow_fired-IsLinked :
      (s : Device Ring) → IsLinked board s → IsLinked board (record s { adv_slow_work = fired })
  slow_fired-IsLinked s v = Facts-IsLinked board _ (ground arith)

  retry_fired-IsLinked :
      (s : Device Ring) → IsLinked board s → IsLinked board (record s { adv_retry_work = fired })
  retry_fired-IsLinked s v = Facts-IsLinked board _ (ground arith)

  abbrev pub IsSound : World Ring → Type 0
  IsSound w = IsLinked board w.device × IsReachable board w.recycling w.device

  connected-IsReachable :
      (s : Device Ring) (w : Bool) → IsReachable board w (on_connected board host 0 s)
  unfolding on_connected set_status_leds set_led
  connected-IsReachable s w = inl refl

  grace-IsReachable :
      (s : Device Ring) (w : Bool)
      → IsReachable board w s
      → IsReachable board w (relay_grace_handler board (record s { relay_grace_work = fired }))
  unfolding relay_grace_handler relay_apply
  grace-IsReachable s w h = ground arith

  watchdog-IsReachable :
      (s : Device Ring) (w : Bool)
      → IsReachable board w s
      → IsReachable board w
          (security_timeout_handler board host (record s { security_timeout_work = fired }))
  unfolding security_timeout_handler ref_unsecured_conn
  watchdog-IsReachable s w h = ground arith

  pub Step-IsSound : (a b : World Ring) → Step R p board host a b → IsSound a → IsSound b
  Step-IsSound _ _ (link_made s w down) (v, h) =
      (on_connected-IsLinked board host s down v, connected-IsReachable s false)
  Step-IsSound _ _ (link_failed s w err bad) (v, h) =
      (failed-IsLinked board host s err bad v, inr (inr (inr refl)))
  Step-IsSound _ _ (link_lost s w) (v, h) =
      (on_disconnected-IsLinked board host s v, inr (inr (inr refl)))
  Step-IsSound _ _ (recycled s w) (v, h) =
      unfold on_recycled in
      (advertising_start-IsLinked board host s v, advertising_start-IsReachable board host s false)
  Step-IsSound _ _ (secured s w pause level err inside up) (v, h) = (
    secured-IsLinked board host pause inside level err s up v,
    secured-IsReachable board host pause inside level err s w up,
  )
  Step-IsSound _ _ (paired s w bonded up) (v, h) =
      let e = pairing_complete-Same s bonded in
      (Same-IsLinked board s _ e v, Same-IsReachable board s _ w e h)
  Step-IsSound _ _ (received s t w bytes cmd scratch arrivals e) (v, h) = (
    received-IsLinked R p board host bytes cmd scratch arrivals s t e v,
    received-IsReachable R p board host bytes cmd scratch arrivals s t w e h,
  )
  Step-IsSound _ _ (writer_runs s w) (v, h) =
      (writer_step-IsLinked R p board host s v, writer_step-IsReachable R p board host s w h)
  Step-IsSound _ _ (uart_event s w e) (v, h) =
      let same = bridge-Same board host s (uart_cb R p e s.bridge).1 in
      (Same-IsLinked board s _ same v, Same-IsReachable board s _ w same h)
  Step-IsSound _ _ (rx_retry_due s w) (v, h) =
      let same =
        bridge-Same board host s (retry_handler p (record s.bridge { retry_work = fired })).1 in
      (Same-IsLinked board s _ same v, Same-IsReachable board s _ w same h)
  Step-IsSound _ _ (blink_due s w) (v, h) =
      let same = blink-Same board host s in
      (Same-IsLinked board s _ same v, Same-IsReachable board s _ w same h)
  Step-IsSound _ _ (slow_due s w gap inside) (v, h) = (
    slow-IsLinked board host gap (record s { adv_slow_work = fired }) (Gap-IsLinked gap inside)
        (slow_fired-IsLinked s v),
    slow-IsReachable board host gap (record s { adv_slow_work = fired }) w h,
  )
  Step-IsSound _ _ (retry_due s w) (v, h) =
      unfold adv_retry_handler in
      (
        advertising_start-IsLinked board host _ (retry_fired-IsLinked s v),
        advertising_start-IsReachable board host _ w,
      )
  Step-IsSound _ _ (grace_due s w) (v, h) = (grace-IsLinked board host s v, grace-IsReachable s w h)
  Step-IsSound _ _ (watchdog_due s w) (v, h) =
      (watchdog-IsLinked board host s v, watchdog-IsReachable s w h)

  pub Steps-IsSound : (a b : World Ring) → Steps R p board host a b → IsSound a → IsSound b
  Steps-IsSound a b steps h = Steps-keeps R p board host IsSound Step-IsSound a b steps h
