-- ===== src/Device/Hearing.antt =====
-- What phones write over encrypted links in a history of the device, and what the other steps are.
use nrf_proxy.Base.{ℕ, List, [], ◌∷◌, ◌≡◌, some, if◌then◌else◌}
use nrf_proxy.Platform.{Platform, fired}
use nrf_proxy.RingBuf.{RingBuf}
use nrf_proxy.Core.Command.{Cmd}
use nrf_proxy.Bridge.Receive.{retry_handler}
use nrf_proxy.Bridge.Callback.{Event, uart_cb}
use nrf_proxy.Bridge.Api.{Arrivals}
use nrf_proxy.Device.State.{Host, Board, Device}
use nrf_proxy.Device.Received.{nus_received}
use nrf_proxy.Device.Thread.{writer_step}
use nrf_proxy.Device.Aside.{
  Aside, on_connected-Aside, on_disconnected-Aside, watchdog-Aside, grace-Aside, blink-Aside,
  pairing_complete-Aside, slow-Aside,
}
use nrf_proxy.Device.Secured.{secured-Aside}
use nrf_proxy.Device.Effects.{recycled-Aside, retry-Aside, Gap-Aside}
use nrf_proxy.Device.System.{
  World, Step, link_made, link_failed, link_lost, recycled, secured, paired, received, writer_runs,
  uart_event, rx_retry_due, blink_due, slow_due, retry_due, grace_due, watchdog_due, Steps, stay,
  andthen,
}

module _ (R : RingBuf) (p : Platform) (board : Board) (host : Host) where
  open R use {Ring}

  -- The chunks that phones have written so far over an encrypted link, newest first, after a step.
  abbrev pub hears : (a b : World Ring) → Step R p board host a b → List (List ℕ) → List (List ℕ)
  hears _ _ (received s t w bytes cmd scratch arrivals e) chunks =
      if s.link_secure then bytes ∷ chunks else chunks
  hears _ _ _ chunks = chunks

  -- All those chunks, over the steps from one world to another.
  abbrev pub heard : (a b : World Ring) → Steps R p board host a b → List (List ℕ)
  heard _ _ (stay a) = []
  heard _ _ (andthen a b c steps last) = hears b c last (heard a b steps)

  -- A step of the device, with the chunks before and after it.
  pub data Hears : Device Ring → Device Ring → List (List ℕ) → List (List ℕ) → Type 0 where
    writes :
        (s : Device Ring) (chunks : List (List ℕ)) → Hears s (writer_step R p host s) chunks chunks
    passes_by : (s t : Device Ring) (chunks : List (List ℕ)) → Aside s t → Hears s t chunks chunks
    drives :
        (s : Device Ring) (chunks : List (List ℕ)) (e : Event)
        → Hears s (record s { bridge = (uart_cb R p e s.bridge).1 }) chunks chunks
    restarts :
        (s : Device Ring) (chunks : List (List ℕ))
        → Hears s
            (record s { bridge = (retry_handler p (record s.bridge { retry_work = fired })).1 })
            chunks
            chunks
    phones :
        (s t : Device Ring) (chunks : List (List ℕ)) (bytes : List ℕ) (cmd : Cmd) (scratch : List ℕ)
        (arrivals : Arrivals)
        → nus_received R p board host bytes cmd scratch arrivals s ≡ some t
        → Hears s t chunks (if s.link_secure then bytes ∷ chunks else chunks)

  pub Step-Hears :
      (a b : World Ring) (step : Step R p board host a b) (chunks : List (List ℕ))
      → Hears a.device b.device chunks (hears a b step chunks)
  Step-Hears _ b (link_made s w down) chunks =
      passes_by s b.device chunks (on_connected-Aside board host s 0)
  Step-Hears _ b (link_failed s w err bad) chunks =
      passes_by s b.device chunks (on_connected-Aside board host s err)
  Step-Hears _ b (link_lost s w) chunks =
      passes_by s b.device chunks (on_disconnected-Aside board host s)
  Step-Hears _ b (recycled s w) chunks =
      passes_by s b.device chunks (recycled-Aside R p board host s)
  Step-Hears _ b (secured s w pause level err inside up) chunks =
      passes_by s b.device chunks (secured-Aside board host pause inside level err s)
  Step-Hears _ b (paired s w bonded up) chunks =
      passes_by s b.device chunks (pairing_complete-Aside board host s bonded)
  Step-Hears _ b (blink_due s w) chunks = passes_by s b.device chunks (blink-Aside board host s)
  Step-Hears _ b (slow_due s w gap inside) chunks = passes_by s b.device chunks (
      slow-Aside board host gap (record s { adv_slow_work = fired })
        (Gap-Aside R p board host gap inside))
  Step-Hears _ b (retry_due s w) chunks = passes_by s b.device chunks (retry-Aside R p board host s)
  Step-Hears _ b (grace_due s w) chunks = passes_by s b.device chunks (grace-Aside board host s)
  Step-Hears _ b (watchdog_due s w) chunks =
      passes_by s b.device chunks (watchdog-Aside board host s)
  Step-Hears _ b (received s t w bytes cmd scratch arrivals e) chunks =
      phones s t chunks bytes cmd scratch arrivals e
  Step-Hears _ b (writer_runs s w) chunks = writes s chunks
  Step-Hears _ b (uart_event s w e) chunks = drives s chunks e
  Step-Hears _ b (rx_retry_due s w) chunks = restarts s chunks
