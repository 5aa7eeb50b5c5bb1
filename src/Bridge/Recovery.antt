-- ===== src/Bridge/Recovery.antt =====
-- Reception comes back: after every operation it is live or its restart is scheduled.
use nrf_proxy.Base.{
  ℕ, ◌≡◌, sym, ap, subst, ◌∙◌, ◌⊎◌, inl, inr, Bool, true, false, List, [], ◌∷◌, arith, ◌||◌,
  Bool-cases, none, some,
}
use nrf_proxy.Base.Int.{pos, neg, ◌==ℤ◌, ebusy}
use nrf_proxy.Retry.{
  uart_rx_enable_succeeded, uart_rx_retry_warn_once, uart_rx_should_schedule_retry,
}
use nrf_proxy.Platform.{Call, History, Platform, Work, rescheduled}
use nrf_proxy.RingBuf.{RingBuf}
use nrf_proxy.Bridge.State.{Bridge, log_call}
use nrf_proxy.Bridge.Receive.{start_rx, enable_or_free, retry_handler}
use nrf_proxy.Bridge.Transmit.{stage, tx_kick, send}
use nrf_proxy.Bridge.Callback.{
  Event, tx_done, tx_aborted, rx_rdy, rx_buf_request, rx_buf_released, rx_disabled, other,
  count_aborted, receive, restart, uart_cb,
}
use nrf_proxy.Bridge.Api.{
  Arrivals, start_or_retry, resume, reconfigure, uart_bridge_set_baud, uart_bridge_send,
  uart_bridge_rx_claim, uart_bridge_rx_finish,
}
use nrf_proxy.Bridge.Report.{uart_bridge_log_drops_if_due}
use nrf_proxy.Bridge.Ops.{
  Op, driver, retry, send_bytes, set_baud, claim, finish, report, step, run, run-keeps,
}
use nrf_proxy.Bridge.Pipeline.{rx_disabled_free}
use nrf_proxy.Bridge.Order.{IsRunning, step-IsRunning}

-- Whether the last that the file knows of reception is that it runs: an `uart_rx_enable` that
-- succeeded (or found it running), with no UART_RX_DISABLED since.
abbrev pub live : History → Bool
live [] = false
live (Call.rx_enable block err ∷ tr) = (err ==ℤ pos 0) || (err ==ℤ neg ebusy)
live (Call.rx_stopped ∷ tr) = false
live (_ ∷ tr) = live tr

abbrev pub armed : Work → Bool
armed (rescheduled _) = true
armed _ = false

module _ (R : RingBuf) (p : Platform) where
  open R use {Ring}

  abbrev pub IsReceiving : Bridge Ring → Type 0
  IsReceiving s = (live s.calls ≡ true) ⊎ (s.retry_work ≡ rescheduled 100)

  tx_kick-same :
      (s : Bridge Ring)
      → (live (tx_kick R p s).1.calls ≡ live s.calls)
        × ((tx_kick R p s).1.retry_work ≡ s.retry_work)
  unfolding tx_kick stage
  tx_kick-same s = ground arith

  tx_kick-IsReceiving : (s : Bridge Ring) → IsReceiving s → IsReceiving (tx_kick R p s).1
  tx_kick-IsReceiving s h = rw ((tx_kick-same s).0, (tx_kick-same s).1) h

  start_or_retry-IsReceiving : (s : Bridge Ring) → IsReceiving (start_or_retry R p s).1
  unfolding start_or_retry start_rx
  start_or_retry-IsReceiving s = ground arith

  restart-armed :
      (s : Bridge Ring)
      → armed s.retry_work ≡ false
      → let alloc_err = p.slab_alloc_err s.calls in
        let block = p.slab_block s.calls in
        let err = p.rx_enable_err (Call.slab_alloc alloc_err block ∷ s.calls) block in
        armed (restart R p s).1.retry_work ≡ uart_rx_should_schedule_retry (alloc_err ==ℤ pos 0) err
  unfolding restart enable_or_free uart_rx_enable_succeeded uart_rx_should_schedule_retry
  restart-armed s h = ground arith

  -- At UART_RX_DISABLED outside a reconfiguration, with no retry pending, the callback schedules
  -- the retry exactly when `uart_rx_should_schedule_retry` says so of the answers that it got.
  rx_disabled_policy :
      (s : Bridge Ring)
      → armed s.retry_work ≡ false
      → s.reconfiguring ≡ false
      → let tr = Call.rx_stopped ∷ s.calls in
        let alloc_err = p.slab_alloc_err tr in
        let block = p.slab_block tr in
        let err = p.rx_enable_err (Call.slab_alloc alloc_err block ∷ tr) block in
        armed (uart_cb R p rx_disabled s).1.retry_work
        ≡ uart_rx_should_schedule_retry (alloc_err ==ℤ pos 0) err
  rx_disabled_policy s h free =
      ap (λ r. armed r.1.retry_work) (rx_disabled_free R p s free)
      ∙ restart-armed (log_call Call.rx_stopped s) h

  restart-IsReceiving : (s : Bridge Ring) → IsReceiving (restart R p s).1
  unfolding restart enable_or_free uart_rx_enable_succeeded
  restart-IsReceiving s = ground arith

  retry_handler-IsReceiving :
      (s : Bridge Ring) → s.reconfiguring ≡ false → IsReceiving (retry_handler p s).1
  unfolding retry_handler enable_or_free uart_rx_retry_warn_once uart_rx_enable_succeeded
  retry_handler-IsReceiving s h = ground arith

  uart_cb-IsReceiving :
      (e : Event) (s : Bridge Ring)
      → s.reconfiguring ≡ false
      → IsReceiving s
      → IsReceiving (uart_cb R p e s).1
  unfolding uart_cb
  uart_cb-IsReceiving tx_done s f h = tx_kick-IsReceiving _ h
  uart_cb-IsReceiving (tx_aborted sent) s f h =
      tx_kick-IsReceiving _ (unfold count_aborted in ground arith)
  uart_cb-IsReceiving (rx_rdy bytes) s f h = unfold receive in ground arith
  uart_cb-IsReceiving rx_buf_request s f h = ground arith
  uart_cb-IsReceiving (rx_buf_released none) s f h = h
  uart_cb-IsReceiving (rx_buf_released (some buf)) s f h = h
  uart_cb-IsReceiving rx_disabled s f h =
      subst (λ r. IsReceiving r.1) (sym (rx_disabled_free R p s f)) (restart-IsReceiving _)
  uart_cb-IsReceiving other s f h = h

  resume-IsReceiving : (es : List Event) (s : Bridge Ring) → IsReceiving (resume R p es s).1
  unfolding resume
  resume-IsReceiving es s = tx_kick-IsReceiving _ (start_or_retry-IsReceiving _)

  set_baud-IsReceiving :
      (baud : ℕ) (a : Arrivals) (s : Bridge Ring)
      → IsReceiving s
      → IsReceiving (uart_bridge_set_baud R p baud a s).1
  unfolding uart_bridge_set_baud reconfigure
  set_baud-IsReceiving baud a s h = elim (Bool-cases s.bridge_dev) [
    | inr absent ↦ simp absent h
    | inl present ↦ simp present (resume-IsReceiving a.resumed _)
  ]

  report-IsReceiving :
      (s : Bridge Ring) → IsReceiving s → IsReceiving (uart_bridge_log_drops_if_due p s).1
  unfolding uart_bridge_log_drops_if_due
  report-IsReceiving s h = ground arith

  pub step-IsReceiving :
      (o : Op) (s : Bridge Ring) → IsRunning R p s → IsReceiving s → IsReceiving (step R p o s)
  unfolding step
  step-IsReceiving (driver e) s v h = uart_cb-IsReceiving e s v.flag h
  step-IsReceiving retry s v h = retry_handler-IsReceiving _ v.flag
  step-IsReceiving (send_bytes bytes) s v h =
      unfold uart_bridge_send send in tx_kick-IsReceiving _ h
  step-IsReceiving (set_baud baud a) s v h = set_baud-IsReceiving baud a s h
  step-IsReceiving (claim n) s v h = unfold uart_bridge_rx_claim in h
  step-IsReceiving (finish n) s v h = unfold uart_bridge_rx_finish in h
  step-IsReceiving report s v h = report-IsReceiving s h

  -- From a state outside a reconfiguration where it holds, after every history, reception is live
  -- or its restart is scheduled in 100 ms: neither an unexpected stop nor a baud change nor a failed
  -- restart leaves it off with no retry to come.
  pub reception_recovers :
      (os : List Op) (s : Bridge Ring)
      → IsRunning R p s
      → IsReceiving s
      → IsReceiving (run R p os s)
  reception_recovers os s v h =
      (run-keeps R p (λ t. IsRunning R p t × IsReceiving t)
        (λ o t k. (step-IsRunning R p o t k.0, step-IsReceiving o t k.0 k.1)) os s (v, h)).1
