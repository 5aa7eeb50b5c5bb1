-- ===== src/Device/Filter/History.antt =====
-- The filter of the advertiser over every history of the device.
use nrf_proxy.Base.{◌≡◌, true}
use nrf_proxy.Platform.{Platform, fired}
use nrf_proxy.RingBuf.{RingBuf}
use nrf_proxy.Device.State.{Host, Board, Device}
use nrf_proxy.Device.Advertising.{adv_retry_handler}
use nrf_proxy.Device.Link.{on_recycled}
use nrf_proxy.Device.Filter.{
  filtering, IsGuarded, on_connected-IsGuarded, on_disconnected-IsGuarded,
  advertising_start-IsGuarded, watchdog-IsGuarded, grace-IsGuarded, blink-IsGuarded,
  paired-IsGuarded, slow-IsGuarded,
}
use nrf_proxy.Device.Filter.Path.{received-IsGuarded, writer_step-IsGuarded}
use nrf_proxy.Device.Secured.{secured-IsGuarded}
use nrf_proxy.Device.Safety.{IsSound, Step-IsSound}
use nrf_proxy.Device.System.{
  World, Gap, quiet, connects, recycles, Step, link_made, link_failed, link_lost, recycled, secured,
  paired, received, writer_runs, uart_event, rx_retry_due, blink_due, slow_due, retry_due,
  grace_due, watchdog_due, Steps, Steps-keeps,
}

module _ (R : RingBuf) (p : Platform) (board : Board) (host : Host) where
  open R use {Ring}

  recycled-IsGuarded : (s : Device Ring) → IsGuarded s → IsGuarded (on_recycled board host s)
  unfolding on_recycled
  recycled-IsGuarded s h = advertising_start-IsGuarded board host s h

  retry-IsGuarded :
      (s : Device Ring)
      → IsGuarded s
      → IsGuarded (adv_retry_handler board host (record s { adv_retry_work = fired }))
  unfolding adv_retry_handler
  retry-IsGuarded s h =
      advertising_start-IsGuarded board host (record s { adv_retry_work = fired }) h

  Gap-IsGuarded :
      (gap : Device Ring → Device Ring)
      → Gap R p board host gap
      → (t : Device Ring) → IsGuarded t
      → IsGuarded (gap t)
  Gap-IsGuarded _ quiet t h = h
  Gap-IsGuarded _ connects t h = on_connected-IsGuarded board host t 0
  Gap-IsGuarded _ recycles t h = recycled-IsGuarded t h

  Step-IsGuarded :
      (a b : World Ring)
      → Step R p board host a b
      → IsSound R p board host a
      → IsGuarded a.device
      → IsGuarded b.device
  Step-IsGuarded _ _ (link_made s w down) v h = on_connected-IsGuarded board host s 0
  Step-IsGuarded _ _ (link_failed s w err bad) v h = on_connected-IsGuarded board host s err
  Step-IsGuarded _ _ (link_lost s w) v h = on_disconnected-IsGuarded board host s h
  Step-IsGuarded _ _ (recycled s w) v h = recycled-IsGuarded s h
  Step-IsGuarded _ _ (secured s w pause level err inside up) v h =
      secured-IsGuarded board host pause inside level err s h
  Step-IsGuarded _ _ (paired s w bonded up) v h = paired-IsGuarded board host s bonded (v.0.one up)
  Step-IsGuarded _ _ (received s t w bytes cmd scratch arrivals e) v h =
      received-IsGuarded R p board host bytes cmd scratch arrivals s t e h
  Step-IsGuarded _ _ (writer_runs s w) v h = writer_step-IsGuarded R p board host s h
  Step-IsGuarded _ _ (uart_event s w e) v h = h
  Step-IsGuarded _ _ (rx_retry_due s w) v h = h
  Step-IsGuarded _ _ (blink_due s w) v h = blink-IsGuarded board host s h
  Step-IsGuarded _ _ (slow_due s w gap inside) v h =
      slow-IsGuarded board host gap s (Gap-IsGuarded gap inside) h
  Step-IsGuarded _ _ (retry_due s w) v h = retry-IsGuarded s h
  Step-IsGuarded _ _ (grace_due s w) v h = grace-IsGuarded board host s h
  Step-IsGuarded _ _ (watchdog_due s w) v h = watchdog-IsGuarded board host s h

  -- From a state that meets the invariant and where it holds, over every history: while an
  -- advertiser is up, it was started with the accept-list filter exactly if the device is in the
  -- locked mode.
  pub filtered_when_locked :
      (a b : World Ring)
      → IsSound R p board host a
      → IsGuarded a.device
      → Steps R p board host a b
      → b.device.adv_active ≡ true
      → filtering b.device.calls ≡ b.device.locked_mode
  filtered_when_locked a b v h steps =
      (Steps-keeps R p board host (λ c. IsSound R p board host c × IsGuarded c.device)
        (λ c d step k. (Step-IsSound R p board host c d step k.0, Step-IsGuarded c d step k.0 k.1))
        a b steps (v, h)).1
