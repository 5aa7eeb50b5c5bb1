-- ===== src/Bridge/Callback.antt =====
-- `uart_cb`, the callback of the UART driver, which runs in the interrupt.
use nrf_proxy.Base.{
  ℕ, ◌-◌, true, false, Option, none, some, List, [], ◌∷◌, ltb, if◌then◌else◌, not, length,
}
use nrf_proxy.Base.Int.{pos, ◌==ℤ◌}
use nrf_proxy.Stats.{drop_stats_rx_overflow}
use nrf_proxy.Platform.{Call, Platform}
use nrf_proxy.RingBuf.{RingBuf}
use nrf_proxy.Bridge.State.{
  Bridge, M, ◌>>=◌, ◌>>◌, gets, modify, done, log_call, add32, reschedule_retry, slab_alloc,
  slab_free, rx_buf_rsp,
}
use nrf_proxy.Bridge.Receive.{enable_or_free}
use nrf_proxy.Bridge.Transmit.{tx_kick}

-- `struct uart_event`: `tx_aborted` has the count already sent, `rx_rdy` the bytes received, and a
-- released buffer may be the null pointer. `other` is any event of the `default` case.
pub data Event : Type 0 where
  tx_done rx_buf_request rx_disabled other : Event
  tx_aborted : ℕ → Event
  rx_rdy : List ℕ → Event
  rx_buf_released : Option ℕ → Event

-- The bytes of an aborted transfer that were not sent.
abbrev pub aborted_len : ℕ → ℕ → ℕ
aborted_len tx_len sent = if ltb sent tx_len then tx_len - sent else 0

module _ (R : RingBuf) where
  open R use {Ring, put}

  abbrev pub tx_idle : M Ring (Unit {0})
  tx_idle s = (tt, record s { tx_in_progress = false; tx_len = 0 })

  unfoldable pub count_aborted : ℕ → M Ring (Unit {0})
  count_aborted sent s =
      let aborted = aborted_len s.tx_len sent in
      (tt, if ltb 0 aborted then record s { drops_tx = add32 s.drops_tx aborted } else s)

  -- The store into the receive ring, the count of what did not fit, and the wake-up.
  unfoldable pub receive : List ℕ → M Ring (Unit {0})
  receive bytes s =
      let (queued, ring) = put s.rx_ring bytes in
      let dropped = drop_stats_rx_overflow (length bytes) queued in
      let s' : Bridge Ring = log_call (Call.rx_put bytes queued) (record s { rx_ring = ring }) in
      let s'' : Bridge Ring =
        if ltb 0 dropped then record s' { drops_rx = add32 s'.drops_rx dropped } else s' in
      (tt, if ltb 0 queued then record s'' { rx_ready = true } else s'')

module _ (R : RingBuf) (p : Platform) where
  open R use {Ring}

  -- The case UART_RX_DISABLED outside a reconfiguration.
  unfoldable pub restart : M Ring (Unit {0})
  restart = do
    (err, buf) ← slab_alloc p
    if not (err ==ℤ pos 0)
        then reschedule_retry
        else (do live ← enable_or_free p buf; if live then done else reschedule_retry)

  unfoldable pub uart_cb : Event → M Ring (Unit {0})
  uart_cb tx_done = do modify (log_call Call.tx_over); tx_idle R; tx_kick R p
  uart_cb (tx_aborted sent) = do
    modify (log_call (Call.tx_cut sent))
    count_aborted R sent
    tx_idle R
    tx_kick R p
  uart_cb (rx_rdy bytes) = receive R bytes
  uart_cb rx_buf_request = do
    (err, buf) ← slab_alloc p
    if err ==ℤ pos 0 then rx_buf_rsp p buf else done
  uart_cb (rx_buf_released none) = done
  uart_cb (rx_buf_released (some buf)) = do modify (log_call (Call.released buf)); slab_free p buf
  uart_cb rx_disabled = do
    modify (log_call Call.rx_stopped)
    busy ← gets (λ s. s.reconfiguring)
    if busy then modify (λ s. record s { rx_quiesced = true }) else restart
  uart_cb other = done

  -- The events of one stretch of time, in order.
  unfoldable pub interrupts : List Event → M Ring (Unit {0})
  interrupts [] s = (tt, s)
  interrupts (e ∷ es) s = interrupts es (uart_cb e s).1
