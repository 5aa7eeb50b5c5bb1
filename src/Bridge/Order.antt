-- ===== src/Bridge/Order.antt =====
-- The transmit pipeline over every history: order kept, no stall.
use nrf_proxy.Base.{
  ℕ, ◌≡◌, refl, sym, ap, subst, ◌∙◌, inl, inr, false, List, ◌++◌, arith, Bool-cases, none, some,
}
use nrf_proxy.Platform.{Call, Platform}
use nrf_proxy.RingBuf.{RingBuf}
use nrf_proxy.Bridge.State.{Bridge, log_call}
use nrf_proxy.Bridge.Receive.{start_rx}
use nrf_proxy.Bridge.Transmit.{tx_kick, send}
use nrf_proxy.Bridge.Callback.{
  Event, tx_done, tx_aborted, rx_rdy, rx_buf_request, rx_buf_released, rx_disabled, other,
  count_aborted, uart_cb,
}
use nrf_proxy.Bridge.Api.{
  Arrivals, start_or_retry, resume, reconfigure, uart_bridge_set_baud, uart_bridge_send,
  uart_bridge_rx_claim, uart_bridge_rx_finish,
}
use nrf_proxy.Bridge.Report.{uart_bridge_log_drops_if_due}
use nrf_proxy.Bridge.Ops.{
  Op, driver, retry, send_bytes, set_baud, claim, finish, report, step, run, interrupts-keeps,
  run-keeps,
}
use nrf_proxy.Bridge.Keeps.{IsControl, disables, aborts, reads, configures, Keeps, step-keeps}
use nrf_proxy.Bridge.Pipeline.{
  handed, accepted, InOrder, NoStall, Frame, Frame-InOrder, Frame-NoStall, tx_kick-InOrder,
  tx_kick-NoStall, flag-tx_kick, start_rx-Frame, retry_handler-Frame, restart-Frame, receive-Frame,
  rx_disabled_free, send-InOrder, uart_cb-InOrder,
}

module _ (R : RingBuf) (p : Platform) where
  open R use {Ring, contents}

  -- Outside a reconfiguration, with no idle bytes.
  pub record IsRunning (s : Bridge Ring) : Type 0 where
    pub flag : s.reconfiguring ≡ false
    pub going : NoStall R p s

  Frame-IsRunning : (s t : Bridge Ring) → Frame R p s t → IsRunning s → IsRunning t
  Frame-IsRunning s t f v = record {
    flag = f.flag_eq ∙ v.flag;
    going = Frame-NoStall R p s t f v.going;
  }

  kick-IsRunning : (s : Bridge Ring) → s.reconfiguring ≡ false → IsRunning (tx_kick R p s).1
  kick-IsRunning s h = record { flag = flag-tx_kick R p s ∙ h; going = tx_kick-NoStall R p s h }

  uart_cb-IsRunning : (e : Event) (s : Bridge Ring) → IsRunning s → IsRunning (uart_cb R p e s).1
  unfolding uart_cb
  uart_cb-IsRunning tx_done s v = kick-IsRunning _ v.flag
  uart_cb-IsRunning (tx_aborted sent) s v =
      kick-IsRunning _ (unfold count_aborted in ground (arith, v.flag))
  uart_cb-IsRunning (rx_rdy bytes) s v = Frame-IsRunning s _ (receive-Frame R p bytes s) v
  uart_cb-IsRunning rx_buf_request s v = ground arith
  uart_cb-IsRunning (rx_buf_released none) s v = v
  uart_cb-IsRunning (rx_buf_released (some buf)) s v = record { flag = v.flag; going = v.going }
  uart_cb-IsRunning rx_disabled s v =
      subst (λ r. IsRunning r.1) (sym (rx_disabled_free R p s v.flag))
        (Frame-IsRunning (log_call Call.rx_stopped s) _ (restart-Frame R p _)
          (record { flag = v.flag; going = v.going }))
  uart_cb-IsRunning other s v = v

  start_or_retry-flag : (s : Bridge Ring) → (start_or_retry R p s).1.reconfiguring ≡ s.reconfiguring
  unfolding start_or_retry start_rx
  start_or_retry-flag s = ground arith

  uart_cb-flag :
      (e : Event) (s : Bridge Ring)
      → s.reconfiguring ≡ false
      → (uart_cb R p e s).1.reconfiguring ≡ false
  unfolding uart_cb
  uart_cb-flag tx_done s h = flag-tx_kick R p _ ∙ h
  uart_cb-flag (tx_aborted sent) s h = flag-tx_kick R p _ ∙ (unfold count_aborted in ground arith)
  uart_cb-flag (rx_rdy bytes) s h = (receive-Frame R p bytes s).flag_eq ∙ h
  uart_cb-flag rx_buf_request s h = ground arith
  uart_cb-flag (rx_buf_released none) s h = h
  uart_cb-flag (rx_buf_released (some buf)) s h = h
  uart_cb-flag rx_disabled s h =
      ap (λ r. r.1.reconfiguring) (rx_disabled_free R p s h) ∙ (restart-Frame R p _).flag_eq ∙ h
  uart_cb-flag other s h = h

  resume-IsRunning : (es : List Event) (s : Bridge Ring) → IsRunning (resume R p es s).1
  unfolding resume
  resume-IsRunning es s = kick-IsRunning _ (
      start_or_retry-flag _
      ∙ interrupts-keeps R p (λ t. t.reconfiguring ≡ false) uart_cb-flag es _ refl)

  set_baud-IsRunning :
      (baud : ℕ) (a : Arrivals) (s : Bridge Ring)
      → IsRunning s
      → IsRunning (uart_bridge_set_baud R p baud a s).1
  unfolding uart_bridge_set_baud reconfigure
  set_baud-IsRunning baud a s v = elim (Bool-cases s.bridge_dev) [
    | inr absent ↦ simp absent v
    | inl present ↦ simp present (resume-IsRunning a.resumed _)
  ]

  send-IsRunning : (bytes : List ℕ) (s : Bridge Ring) → IsRunning s → IsRunning (send R p bytes s).1
  unfolding send
  send-IsRunning bytes s v = kick-IsRunning _ v.flag

  statics-IsRunning :
      (s t : Bridge Ring)
      → t.calls ≡ s.calls
      → t.tx_ring ≡ s.tx_ring
      → t.tx_in_progress ≡ s.tx_in_progress
      → t.reconfiguring ≡ s.reconfiguring
      → IsRunning s
      → IsRunning t
  statics-IsRunning s t c r b f v = record { flag = f ∙ v.flag; going = rw (c, r, b) v.going }

  report-IsRunning :
      (s : Bridge Ring) → IsRunning s → IsRunning (uart_bridge_log_drops_if_due p s).1
  unfolding uart_bridge_log_drops_if_due
  report-IsRunning s v = ground (arith, v.flag, v.going)

  -- Every operation ends outside a reconfiguration and leaves no idle pipeline with bytes to send.
  pub step-IsRunning : (o : Op) (s : Bridge Ring) → IsRunning s → IsRunning (step R p o s)
  unfolding step
  step-IsRunning (driver e) s v = uart_cb-IsRunning e s v
  step-IsRunning retry s v =
      Frame-IsRunning _ _ (retry_handler-Frame R p _) (statics-IsRunning s _ refl refl refl refl v)
  step-IsRunning (send_bytes bytes) s v = unfold uart_bridge_send in send-IsRunning bytes s v
  step-IsRunning (set_baud baud a) s v = set_baud-IsRunning baud a s v
  step-IsRunning (claim n) s v =
      unfold uart_bridge_rx_claim in statics-IsRunning s _ refl refl refl refl v
  step-IsRunning (finish n) s v =
      unfold uart_bridge_rx_finish in statics-IsRunning s _ refl refl refl refl v
  step-IsRunning report s v = report-IsRunning s v

  control-InOrder :
      (c : Call) (s : Bridge Ring) → IsControl c → InOrder R p s → InOrder R p (log_call c s)
  control-InOrder c s (disables err) h = h
  control-InOrder c s (aborts err) h = h
  control-InOrder c s (reads err) h = h
  control-InOrder c s (configures baud err) h = h

  pub InOrder-Keeps : Keeps R p (InOrder R p)
  InOrder-Keeps = record {
    statics = λ s t c r x y d e l h. rw (c, r) h;
    control = control-InOrder;
    events = uart_cb-InOrder R p;
    starts = λ s h. Frame-InOrder R p s _ (start_rx-Frame R p s) h;
    retries = λ s h. Frame-InOrder R p s _ (retry_handler-Frame R p s) h;
    kicks = tx_kick-InOrder R p;
    sends = send-InOrder R p;
  }

  -- If it holds at the start, then over every history of events, sends, baud changes and retries:
  -- the bytes handed to the UART, followed by those still in the transmit ring, are exactly the
  -- bytes that the ring took, in order. Nothing is reordered, duplicated or lost between the two.
  transmit_in_order :
      (os : List Op) (s : Bridge Ring)
      → handed s.calls ++ contents s.tx_ring ≡ accepted s.calls
      → let t = run R p os s in handed t.calls ++ contents t.tx_ring ≡ accepted t.calls
  transmit_in_order os s h =
      run-keeps R p (InOrder R p) (step-keeps R p (InOrder R p) InOrder-Keeps (λ r t k. k)) os s h

  -- From a state outside a reconfiguration where it holds, over every history, bytes never wait in
  -- the transmit ring while no transfer is in flight, unless the last `uart_tx` was refused; and no
  -- history ends inside a reconfiguration.
  transmit_never_stalls : (os : List Op) (s : Bridge Ring) → IsRunning s → IsRunning (run R p os s)
  transmit_never_stalls os s v = run-keeps R p IsRunning step-IsRunning os s v
