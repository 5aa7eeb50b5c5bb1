-- ===== src/Device/Effects.antt =====
-- What each step of the device does to the bridge and the writer thread.
use nrf_proxy.Base.{ℕ, List, some, ◌≡◌, refl, ◌⊎◌, inl, inr}
use nrf_proxy.Platform.{Platform, fired}
use nrf_proxy.RingBuf.{RingBuf}
use nrf_proxy.Core.Command.{Cmd}
use nrf_proxy.Bridge.Receive.{retry_handler}
use nrf_proxy.Bridge.Callback.{Event, uart_cb}
use nrf_proxy.Bridge.Api.{Arrivals}
use nrf_proxy.Device.Received.{nus_received}
use nrf_proxy.Device.State.{Host, Board, Device}
use nrf_proxy.Device.Advertising.{adv_retry_handler}
use nrf_proxy.Device.Link.{on_recycled}
use nrf_proxy.Device.Thread.{writer_step}
use nrf_proxy.Device.Aside.{
  Aside, on_connected-Aside, on_disconnected-Aside, advertising_start-Aside, watchdog-Aside,
  grace-Aside, blink-Aside, pairing_complete-Aside, slow-Aside,
}
use nrf_proxy.Device.Secured.{secured-Aside}
use nrf_proxy.Device.System.{
  World, Gap, quiet, connects, recycles, Step, link_made, link_failed, link_lost, recycled, secured,
  paired, received, writer_runs, uart_event, rx_retry_due, blink_due, slow_due, retry_due,
  grace_due, watchdog_due,
}

module _ (R : RingBuf) (p : Platform) (board : Board) (host : Host) where
  open R use {Ring}

  -- The steps that reach into the bridge: received data, the driver's events and the retry.
  pub data Feeds : Device Ring → Device Ring → Type 0 where
    from_phone :
        (s t : Device Ring) (bytes : List ℕ) (cmd : Cmd) (scratch : List ℕ) (arrivals : Arrivals)
        → nus_received R p board host bytes cmd scratch arrivals s ≡ some t
        → Feeds s t
    from_driver :
        (s : Device Ring) (e : Event) → Feeds s (record s { bridge = (uart_cb R p e s.bridge).1 })
    from_retry :
        (s : Device Ring)
        → Feeds s
            (record s { bridge = (retry_handler p (record s.bridge { retry_work = fired })).1 })

  pub recycled-Aside : (s : Device Ring) → Aside s (on_recycled board host s)
  unfolding on_recycled
  recycled-Aside s = advertising_start-Aside board host s

  pub retry-Aside :
      (s : Device Ring)
      → Aside s (adv_retry_handler board host (record s { adv_retry_work = fired }))
  unfolding adv_retry_handler
  retry-Aside s = advertising_start-Aside board host (record s { adv_retry_work = fired })

  pub Gap-Aside :
      (gap : Device Ring → Device Ring)
      → Gap R p board host gap
      → (t : Device Ring) → Aside t (gap t)
  Gap-Aside _ quiet t = (refl, inl refl, refl)
  Gap-Aside _ connects t = on_connected-Aside board host t 0
  Gap-Aside _ recycles t = recycled-Aside t

  -- Every step is the writer's, or leaves the bridge and the writer aside, or reaches into the bridge.
  pub Step-cases :
      (a b : World Ring)
      → Step R p board host a b
      → (b.device ≡ writer_step R p host a.device)
        ⊎ Aside a.device b.device
        ⊎ Feeds a.device b.device
  Step-cases _ b (link_made s w down) = inr (inl (on_connected-Aside board host s 0))
  Step-cases _ b (link_failed s w err bad) = inr (inl (on_connected-Aside board host s err))
  Step-cases _ b (link_lost s w) = inr (inl (on_disconnected-Aside board host s))
  Step-cases _ b (recycled s w) = inr (inl (recycled-Aside s))
  Step-cases _ b (secured s w pause level err inside up) =
      inr (inl (secured-Aside board host pause inside level err s))
  Step-cases _ b (paired s w bonded up) = inr (inl (pairing_complete-Aside board host s bonded))
  Step-cases _ b (received s t w bytes cmd scratch arrivals e) =
      inr (inr (from_phone s t bytes cmd scratch arrivals e))
  Step-cases _ b (writer_runs s w) = inl refl
  Step-cases _ b (uart_event s w e) = inr (inr (from_driver s e))
  Step-cases _ b (rx_retry_due s w) = inr (inr (from_retry s))
  Step-cases _ b (blink_due s w) = inr (inl (blink-Aside board host s))
  Step-cases _ b (slow_due s w gap inside) =
      inr (
        inl (slow-Aside board host gap (record s { adv_slow_work = fired }) (Gap-Aside gap inside)))
  Step-cases _ b (retry_due s w) = inr (inl (retry-Aside s))
  Step-cases _ b (grace_due s w) = inr (inl (grace-Aside board host s))
  Step-cases _ b (watchdog_due s w) = inr (inl (watchdog-Aside board host s))
