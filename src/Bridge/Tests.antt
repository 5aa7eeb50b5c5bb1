-- ===== src/Bridge/Tests.antt =====
-- The UART side on a concrete driver, and with the bounded ring buffer.
use nrf_proxy.Base.{◌%◌, ◌^◌, ◌≡◌, refl, inl, inr, some, List, [], ◌∷◌, arith}
use nrf_proxy.RingBuf.Fifo.{Fifo, fifo}
use nrf_proxy.Bridge.Samples.{driver_calm, started}
use nrf_proxy.Bridge.Callback.{Event, count_aborted, uart_cb}
use nrf_proxy.Bridge.Transmit.{stage, tx_kick, send}
use nrf_proxy.Bridge.Api.{Arrivals, uart_bridge_send, uart_bridge_set_baud, uart_bridge_rx_drain}
use nrf_proxy.Bridge.Ops.{Op, run}
use nrf_proxy.Bridge.Order.{IsRunning}
use nrf_proxy.Bridge.Drops.{missed, in_flight, lost, drops_tell}
use nrf_proxy.Bridge.Recovery.{IsReceiving, reception_recovers}
use nrf_proxy.Bridge.Baud.{rate, Tells, set_baud-Tells}
use nrf_proxy.Bridge.Drain.{rx_drain_total}

-- The driver stops reception while the baud change waits for that.
abbrev stopping : Arrivals
stopping = record {
  flagged = [];
  aborted = Event.tx_aborted 1 ∷ [];
  waiting = Event.rx_buf_released (some 7) ∷ Event.rx_disabled ∷ [];
  configured = [];
  resumed = [];
}

abbrev afternoon : List Op
afternoon =
    Op.send_bytes (1 ∷ 2 ∷ 3 ∷ [])
    ∷ Op.driver (Event.rx_rdy (4 ∷ 5 ∷ []))
    ∷ Op.set_baud 9600 stopping
    ∷ Op.driver Event.rx_buf_request
    ∷ Op.driver Event.tx_done
    ∷ Op.retry
    ∷ Op.claim 20
    ∷ Op.report
    ∷ []

started-IsRunning : IsRunning fifo driver_calm started
started-IsRunning = record { flag = refl; going = inr (inl refl) }

reception_recovers_example : IsReceiving fifo driver_calm (run fifo driver_calm afternoon started)
reception_recovers_example =
    reception_recovers fifo driver_calm afternoon started started-IsRunning (inl refl)

drops_tell_example :
    let t = run fifo driver_calm afternoon started in
    (t.drops_rx ≡ missed t.calls % 2 ^ 32)
    × (t.drops_tx ≡ lost t.calls % 2 ^ 32)
    × (t.tx_len ≡ in_flight t.calls)
drops_tell_example = drops_tell fifo driver_calm afternoon started (refl, refl, refl)

-- Of three bytes in flight, two had not left when the transfer was cut off.
two_lost :
    (uart_cb fifo driver_calm
      (Event.tx_aborted 1)
      (uart_bridge_send fifo driver_calm (1 ∷ 2 ∷ 3 ∷ []) started).1).1.drops_tx
    ≡ 2
unfolding uart_cb uart_bridge_send send tx_kick stage count_aborted
two_lost = refl

set_baud-Tells_example :
    Tells fifo driver_calm 9600
      (rate started.calls)
      (uart_bridge_set_baud fifo driver_calm 9600 stopping started)
set_baud-Tells_example = set_baud-Tells fifo driver_calm 9600 stopping started

rx_drain_total_example :
    (ring : Fifo) × (uart_bridge_rx_drain fifo driver_calm 3 started
      ≡ some (record started { rx_ring = ring }))
    × (ring.held ≡ [])
    × (ring.claimed ≡ 0)
rx_drain_total_example = rx_drain_total fifo driver_calm 3 started refl (omega arith)
