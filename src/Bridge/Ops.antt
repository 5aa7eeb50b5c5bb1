-- ===== src/Bridge/Ops.antt =====
-- Histories of the UART side: the driver's events, the retry work and the calls of the application,
-- in any order.
use nrf_proxy.Base.{ℕ, List, [], ◌∷◌}
use nrf_proxy.Platform.{Platform, fired}
use nrf_proxy.RingBuf.{RingBuf}
use nrf_proxy.Bridge.State.{Bridge}
use nrf_proxy.Bridge.Receive.{retry_handler}
use nrf_proxy.Bridge.Callback.{Event, uart_cb, interrupts}
use nrf_proxy.Bridge.Api.{
  Arrivals, uart_bridge_set_baud, uart_bridge_send, uart_bridge_rx_claim, uart_bridge_rx_finish,
}
use nrf_proxy.Bridge.Report.{uart_bridge_log_drops_if_due}

pub data Op : Type 0 where
  driver : Event → Op
  retry : Op
  send_bytes : List ℕ → Op
  set_baud : ℕ → Arrivals → Op
  claim : ℕ → Op
  finish : ℕ → Op
  report : Op

module _ (R : RingBuf) (p : Platform) where
  open R use {Ring}

  unfoldable pub step : Op → Bridge Ring → Bridge Ring
  step (driver e) s = (uart_cb R p e s).1
  step retry s = (retry_handler p (record s { retry_work = fired })).1
  step (send_bytes bytes) s = (uart_bridge_send R p bytes s).1
  step (set_baud baud arrivals) s = (uart_bridge_set_baud R p baud arrivals s).1
  step (claim n) s = (uart_bridge_rx_claim R p n s).1
  step (finish n) s = (uart_bridge_rx_finish R p n s).1
  step report s = (uart_bridge_log_drops_if_due p s).1

  unfoldable pub run : List Op → Bridge Ring → Bridge Ring
  run [] s = s
  run (o ∷ os) s = run os (step o s)

  -- What every event keeps, a stretch of events keeps.
  pub interrupts-keeps :
      (P : Bridge Ring → Type 0)
      → ((e : Event) (s : Bridge Ring) → P s → P (uart_cb R p e s).1)
      → (es : List Event) (s : Bridge Ring) → P s
      → P (interrupts R p es s).1
  unfolding interrupts
  interrupts-keeps P keep [] s h = h
  interrupts-keeps P keep (e ∷ es) s h = interrupts-keeps P keep es (uart_cb R p e s).1 (keep e s h)

  pub run-keeps :
      (P : Bridge Ring → Type 0)
      → ((o : Op) (s : Bridge Ring) → P s → P (step o s))
      → (os : List Op) (s : Bridge Ring) → P s
      → P (run os s)
  unfolding run
  run-keeps P keep [] s h = h
  run-keeps P keep (o ∷ os) s h = run-keeps P keep os (step o s) (keep o s h)
