-- ===== src/Bridge/Ledger.antt =====
-- The blocks of the receive slab: every block allocated goes to the driver or back.
use nrf_proxy.Base.{
  ℕ, ◌+◌, ◌≡◌, inl, inr, List, [], ◌∷◌, arith, Bool-cases, if◌then◌else◌, none, some,
}
use nrf_proxy.Base.Int.{pos, ◌==ℤ◌}
use nrf_proxy.Retry.{uart_rx_enable_succeeded, uart_rx_retry_warn_once}
use nrf_proxy.Platform.{Call, History, Platform}
use nrf_proxy.RingBuf.{RingBuf}
use nrf_proxy.Bridge.State.{Bridge, log_call}
use nrf_proxy.Bridge.Receive.{start_rx, enable_or_free, retry_handler}
use nrf_proxy.Bridge.Transmit.{stage, tx_kick, send}
use nrf_proxy.Bridge.Callback.{
  Event, tx_done, tx_aborted, rx_rdy, rx_buf_request, rx_buf_released, rx_disabled, other,
  count_aborted, receive, restart, uart_cb,
}
use nrf_proxy.Bridge.Ops.{Op, run, run-keeps}
use nrf_proxy.Bridge.Keeps.{IsControl, disables, aborts, reads, configures, Keeps, step-keeps}

-- Blocks that came in: allocated by the file, or given back by the driver.
abbrev pub taken_in : History → ℕ
taken_in [] = 0
taken_in (Call.slab_alloc err block ∷ tr) = (if err ==ℤ pos 0 then 1 else 0) + taken_in tr
taken_in (Call.released block ∷ tr) = 1 + taken_in tr
taken_in (_ ∷ tr) = taken_in tr

-- Blocks that went out: freed to the slab, or accepted by the driver.
abbrev pub passed_on : History → ℕ
passed_on [] = 0
passed_on (Call.slab_free block ∷ tr) = 1 + passed_on tr
passed_on (Call.rx_enable block err ∷ tr) = (if err ==ℤ pos 0 then 1 else 0) + passed_on tr
passed_on (Call.rx_buf_rsp block err ∷ tr) = (if err ==ℤ pos 0 then 1 else 0) + passed_on tr
passed_on (_ ∷ tr) = passed_on tr

-- Answers to a buffer request that the driver refused.
abbrev pub refused_rsp : History → ℕ
refused_rsp [] = 0
refused_rsp (Call.rx_buf_rsp block err ∷ tr) = (if err ==ℤ pos 0 then 0 else 1) + refused_rsp tr
refused_rsp (_ ∷ tr) = refused_rsp tr

module _ (R : RingBuf) (p : Platform) where
  open R use {Ring}

  abbrev pub Balanced : Bridge Ring → Type 0
  Balanced s = taken_in s.calls ≡ passed_on s.calls + refused_rsp s.calls

  tx_kick-Balanced : (s : Bridge Ring) → Balanced s → Balanced (tx_kick R p s).1
  unfolding tx_kick stage
  tx_kick-Balanced s h = ground arith

  start_rx-Balanced : (s : Bridge Ring) → Balanced s → Balanced (start_rx p s).1
  unfolding start_rx
  start_rx-Balanced s h = ground arith

  retry_handler-Balanced : (s : Bridge Ring) → Balanced s → Balanced (retry_handler p s).1
  unfolding retry_handler enable_or_free uart_rx_retry_warn_once uart_rx_enable_succeeded
  retry_handler-Balanced s h = ground arith

  restart-Balanced : (s : Bridge Ring) → Balanced s → Balanced (restart R p s).1
  unfolding restart enable_or_free uart_rx_enable_succeeded
  restart-Balanced s h = ground arith

  uart_cb-Balanced : (e : Event) (s : Bridge Ring) → Balanced s → Balanced (uart_cb R p e s).1
  unfolding uart_cb
  uart_cb-Balanced tx_done s h = tx_kick-Balanced _ h
  uart_cb-Balanced (tx_aborted sent) s h = tx_kick-Balanced _ (unfold count_aborted in ground arith)
  uart_cb-Balanced (rx_rdy bytes) s h = unfold receive in ground arith
  uart_cb-Balanced rx_buf_request s h = ground arith
  uart_cb-Balanced (rx_buf_released none) s h = h
  uart_cb-Balanced (rx_buf_released (some buf)) s h = omega arith
  uart_cb-Balanced rx_disabled s h = elim (Bool-cases s.reconfiguring) [
    | inl busy ↦ rw busy h
    | inr free ↦ rw free (restart-Balanced _ h)
  ]
  uart_cb-Balanced other s h = h

  control-Balanced :
      (c : Call) (s : Bridge Ring) → IsControl c → Balanced s → Balanced (log_call c s)
  control-Balanced c s (disables err) h = h
  control-Balanced c s (aborts err) h = h
  control-Balanced c s (reads err) h = h
  control-Balanced c s (configures baud err) h = h

  send-Balanced : (bytes : List ℕ) (s : Bridge Ring) → Balanced s → Balanced (send R p bytes s).1
  unfolding send
  send-Balanced bytes s h = tx_kick-Balanced _ h

  pub Balanced-Keeps : Keeps R p Balanced
  Balanced-Keeps = record {
    statics = λ s t c r x y d e l h. rw c h;
    control = control-Balanced;
    events = uart_cb-Balanced;
    starts = start_rx-Balanced;
    retries = retry_handler-Balanced;
    kicks = tx_kick-Balanced;
    sends = send-Balanced;
  }

  -- If they do at the start, then over every history the blocks of the receive slab balance: each
  -- block allocated by the file or given back by the driver has been freed or accepted by the
  -- driver, except one block for each answer to a buffer request that the driver refused.
  slab_balanced :
      (os : List Op) (s : Bridge Ring)
      → taken_in s.calls ≡ passed_on s.calls + refused_rsp s.calls
      → let t = run R p os s in taken_in t.calls ≡ passed_on t.calls + refused_rsp t.calls
  slab_balanced os s h =
      run-keeps R p Balanced (step-keeps R p Balanced Balanced-Keeps (λ r t k. k)) os s h
