-- ===== src/Bridge/Drops.antt =====
-- The drop counters of src/uart_bridge.c against the history.
use nrf_proxy.Base.{
  ℕ, ◌+◌, ◌-◌, ◌%◌, ◌^◌, ◌≡◌, refl, inl, inr, false, List, [], ◌∷◌, arith, Bool-cases,
  if◌then◌else◌, none, some, length,
}
use nrf_proxy.Base.Int.{pos, ◌==ℤ◌}
use nrf_proxy.Stats.{drop_stats_rx_overflow}
use nrf_proxy.Retry.{uart_rx_enable_succeeded, uart_rx_retry_warn_once}
use nrf_proxy.Platform.{Call, History, Platform}
use nrf_proxy.RingBuf.{RingBuf}
use nrf_proxy.Bridge.State.{Bridge, log_call}
use nrf_proxy.Bridge.Receive.{start_rx, enable_or_free, retry_handler}
use nrf_proxy.Bridge.Transmit.{stage, tx_kick, send}
use nrf_proxy.Bridge.Callback.{
  Event, tx_done, tx_aborted, rx_rdy, rx_buf_request, rx_buf_released, rx_disabled, other,
  count_aborted, receive, restart, uart_cb,
}
use nrf_proxy.Bridge.Ops.{Op, run, run-keeps}
use nrf_proxy.Bridge.Keeps.{IsControl, disables, aborts, reads, configures, Keeps, step-keeps}

-- Received bytes that the receive ring had no room for.
abbrev pub missed : History → ℕ
missed [] = 0
missed (Call.rx_put bytes n ∷ tr) = (length bytes - n) + missed tr
missed (_ ∷ tr) = missed tr

-- The length of the transfer that the driver works on, 0 if it is idle.
abbrev pub in_flight : History → ℕ
in_flight [] = 0
in_flight (Call.tx bytes err ∷ tr) = if err ==ℤ pos 0 then length bytes else 0
in_flight (Call.tx_over ∷ tr) = 0
in_flight (Call.tx_cut sent ∷ tr) = 0
in_flight (_ ∷ tr) = in_flight tr

-- Bytes taken off the transmit ring that never left: of refused transfers, and the rest of those
-- that were cut off.
abbrev pub lost : History → ℕ
lost [] = 0
lost (Call.tx bytes err ∷ tr) = (if err ==ℤ pos 0 then 0 else length bytes) + lost tr
lost (Call.tx_cut sent ∷ tr) = (in_flight tr - sent) + lost tr
lost (_ ∷ tr) = lost tr

module _ (R : RingBuf) (p : Platform) where
  open R use {Ring}

  abbrev pub Counted : Bridge Ring → Type 0
  Counted s =
      (s.drops_rx ≡ missed s.calls % 2 ^ 32)
      × (s.drops_tx ≡ lost s.calls % 2 ^ 32)
      × (s.tx_len ≡ in_flight s.calls)

  tx_kick-Counted : (s : Bridge Ring) → Counted s → Counted (tx_kick R p s).1
  unfolding tx_kick stage
  tx_kick-Counted s h = ground arith

  start_rx-Counted : (s : Bridge Ring) → Counted s → Counted (start_rx p s).1
  unfolding start_rx
  start_rx-Counted s h = ground arith

  retry_handler-Counted : (s : Bridge Ring) → Counted s → Counted (retry_handler p s).1
  unfolding retry_handler enable_or_free uart_rx_retry_warn_once uart_rx_enable_succeeded
  retry_handler-Counted s h = ground arith

  restart-Counted : (s : Bridge Ring) → Counted s → Counted (restart R p s).1
  unfolding restart enable_or_free uart_rx_enable_succeeded
  restart-Counted s h = ground arith

  receive-Counted : (bytes : List ℕ) (s : Bridge Ring) → Counted s → Counted (receive R bytes s).1
  unfolding receive drop_stats_rx_overflow
  receive-Counted bytes s h = ground arith

  cut-Counted :
      (sent : ℕ) (s : Bridge Ring)
      → Counted s
      → Counted (record (count_aborted R sent (log_call (Call.tx_cut sent) s)).1 {
        tx_in_progress = false;
        tx_len = 0;
      })
  unfolding count_aborted
  cut-Counted sent s h = ground arith

  uart_cb-Counted : (e : Event) (s : Bridge Ring) → Counted s → Counted (uart_cb R p e s).1
  unfolding uart_cb
  uart_cb-Counted tx_done s (r, t, len) = tx_kick-Counted _ (r, t, refl)
  uart_cb-Counted (tx_aborted sent) s h = tx_kick-Counted _ (cut-Counted sent s h)
  uart_cb-Counted (rx_rdy bytes) s h = receive-Counted bytes s h
  uart_cb-Counted rx_buf_request s h = ground arith
  uart_cb-Counted (rx_buf_released none) s h = h
  uart_cb-Counted (rx_buf_released (some buf)) s h = h
  uart_cb-Counted rx_disabled s h = elim (Bool-cases s.reconfiguring) [
    | inl busy ↦ rw busy h
    | inr free ↦ rw free (restart-Counted _ h)
  ]
  uart_cb-Counted other s h = h

  control-Counted : (c : Call) (s : Bridge Ring) → IsControl c → Counted s → Counted (log_call c s)
  control-Counted c s (disables err) h = h
  control-Counted c s (aborts err) h = h
  control-Counted c s (reads err) h = h
  control-Counted c s (configures baud err) h = h

  send-Counted : (bytes : List ℕ) (s : Bridge Ring) → Counted s → Counted (send R p bytes s).1
  unfolding send
  send-Counted bytes s h = tx_kick-Counted _ h

  pub Counted-Keeps : Keeps R p Counted
  Counted-Keeps = record {
    statics = λ s t c r x y d e l h. rw (c, d, e, l) h;
    control = control-Counted;
    events = uart_cb-Counted;
    starts = start_rx-Counted;
    retries = retry_handler-Counted;
    kicks = tx_kick-Counted;
    sends = send-Counted;
  }

  -- If they do at the start, then over every history the counters tell, modulo 2^32, what was lost:
  -- `drops_rx` the received bytes that the receive ring had no room for, `drops_tx` the bytes taken
  -- off the transmit ring that the driver refused or did not send before a transfer was cut off; and
  -- `tx_len` is the length of the transfer in flight.
  pub drops_tell :
      (os : List Op) (s : Bridge Ring)
      → Counted s
      → let t = run R p os s in
        (t.drops_rx ≡ missed t.calls % 2 ^ 32)
        × (t.drops_tx ≡ lost t.calls % 2 ^ 32)
        × (t.tx_len ≡ in_flight t.calls)
  drops_tell os s h =
      run-keeps R p Counted (step-keeps R p Counted Counted-Keeps (λ r t k. k)) os s h
