-- ===== src/Device/Forwarding.antt =====
-- A device-control packet never goes down the UART.
use nrf_proxy.Base.{
  ℕ, ◌≡◌, ◌≢◌, refl, ap, ◌∙◌, inl, inr, Bool, true, false, none, some, List, arith, zero, suc, take,
  Bool-cases, All, if_both,
}
use nrf_proxy.Base.Int.{pos, ◌==ℤ◌}
use nrf_proxy.Platform.{Platform, Call}
use nrf_proxy.RingBuf.{RingBuf}
use nrf_proxy.Core.Command.{Kind, Cmd}
use nrf_proxy.Core.Command.Framing.{IsFramed}
use nrf_proxy.Core.Command.Parse.{proxy_cmd_parse_lem}
use nrf_proxy.Core.Command.Table.{IsByte, Classifies, plain}
use nrf_proxy.Bridge.State.{Bridge, log_call}
use nrf_proxy.Bridge.Receive.{start_rx, enable_or_free}
use nrf_proxy.Bridge.Transmit.{stage, tx_kick}
use nrf_proxy.Bridge.Callback.{
  Event, tx_done, tx_aborted, rx_rdy, rx_buf_request, rx_buf_released, rx_disabled, other,
  count_aborted, receive, restart, uart_cb, interrupts,
}
use nrf_proxy.Bridge.Api.{
  Arrivals, apply_baud, quiesce_and_apply, start_or_retry, resume, reconfigure,
  uart_bridge_set_baud,
}
use nrf_proxy.Bridge.Ops.{interrupts-keeps}
use nrf_proxy.Bridge.Pipeline.{accepted}
use nrf_proxy.Device.State.{Host, Board, Device}
use nrf_proxy.Device.Relay.{relay_set, relay_apply}
use nrf_proxy.Device.Received.{ack_loop, cmd_ack_send, change_baud, act_on, nus_received}
use nrf_proxy.Device.Traffic.{retry_both}
use nrf_proxy.Device.Commands.{gated, act_parsed}
use nrf_proxy.Core.Send.{proxy_send_result}
use nrf_proxy.Device.Received.{nus_send}

module _ (R : RingBuf) (p : Platform) where
  open R use {Ring}

  pub tx_kick-accepted : (s : Bridge Ring) → accepted (tx_kick R p s).1.calls ≡ accepted s.calls
  unfolding tx_kick stage
  tx_kick-accepted s = ground arith

  restart-accepted : (s : Bridge Ring) → accepted (restart R p s).1.calls ≡ accepted s.calls
  unfolding restart enable_or_free
  restart-accepted s = ground arith

  start_or_retry-accepted :
      (s : Bridge Ring) → accepted (start_or_retry R p s).1.calls ≡ accepted s.calls
  unfolding start_or_retry start_rx
  start_or_retry-accepted s = ground arith

  pub uart_cb-accepted :
      (e : Event) (s : Bridge Ring) → accepted (uart_cb R p e s).1.calls ≡ accepted s.calls
  unfolding uart_cb
  uart_cb-accepted tx_done s = tx_kick-accepted _
  uart_cb-accepted (tx_aborted sent) s = tx_kick-accepted _ ∙ (unfold count_aborted in ground arith)
  uart_cb-accepted (rx_rdy bytes) s = unfold receive in ground arith
  uart_cb-accepted rx_buf_request s = ground arith
  uart_cb-accepted (rx_buf_released none) s = refl
  uart_cb-accepted (rx_buf_released (some buf)) s = refl
  uart_cb-accepted rx_disabled s = elim (Bool-cases s.reconfiguring) [
    | inl busy ↦ rw busy
    | inr free ↦ rw free (restart-accepted _)
  ]
  uart_cb-accepted other s = refl

  interrupts-accepted :
      (es : List Event) (s : Bridge Ring)
      → accepted (interrupts R p es s).1.calls ≡ accepted s.calls
  interrupts-accepted es s =
      interrupts-keeps R p (λ t. accepted t.calls ≡ accepted s.calls)
        (λ e t h. uart_cb-accepted e t ∙ h) es s refl

  resume-accepted :
      (es : List Event) (s : Bridge Ring) → accepted (resume R p es s).1.calls ≡ accepted s.calls
  unfolding resume
  resume-accepted es s = tx_kick-accepted _ ∙ start_or_retry-accepted _ ∙ interrupts-accepted es _

  quiesce-accepted :
      (baud : ℕ) (es : List Event) (s : Bridge Ring)
      → accepted (quiesce_and_apply R p baud es s).1.calls ≡ accepted s.calls
  unfolding quiesce_and_apply apply_baud
  quiesce-accepted baud es s =
      ground
        (arith, interrupts-accepted es (log_call (Call.rx_disable (p.rx_disable_err s.calls)) s))

  reconfigure-accepted :
      (baud : ℕ) (a : Arrivals) (s : Bridge Ring)
      → accepted (reconfigure R p baud a s).1.calls ≡ accepted s.calls
  unfolding reconfigure
  reconfigure-accepted baud a s =
      resume-accepted a.resumed _
      ∙ interrupts-accepted a.configured _
      ∙ quiesce-accepted baud a.waiting _
      ∙ interrupts-accepted a.aborted _
      ∙ interrupts-accepted a.flagged _

  pub set_baud-accepted :
      (baud : ℕ) (a : Arrivals) (s : Bridge Ring)
      → accepted (uart_bridge_set_baud R p baud a s).1.calls ≡ accepted s.calls
  unfolding uart_bridge_set_baud
  set_baud-accepted baud a s = elim (Bool-cases s.bridge_dev) [
    | inl present ↦ simp present (reconfigure-accepted baud a s)
    | inr absent ↦ simp absent
  ]

module _ {Ring : Type 0} (board : Board) (host : Host) where
  ack_loop-bridge :
      (tries : ℕ) (ack : List ℕ) (s : Device Ring) → (ack_loop host tries ack s).bridge ≡ s.bridge
  unfolding ack_loop
  ack_loop-bridge zero ack s = refl
  ack_loop-bridge (suc tries) ack s =
      retry_both (λ (t : Device Ring). t.bridge ≡ s.bridge)
        (proxy_send_result (nus_send host ack s).0) _ _
        (ack_loop-bridge tries ack (nus_send host ack s).1) refl

  acked-bridge : (ack : List ℕ) (s : Device Ring) → (cmd_ack_send host ack s).bridge ≡ s.bridge
  unfolding cmd_ack_send
  acked-bridge ack s = ack_loop-bridge 5 ack s

  relay_set-bridge :
      (enable : Bool) (s : Device Ring) → (relay_set board enable s).bridge ≡ s.bridge
  unfolding relay_set relay_apply
  relay_set-bridge enable s = ground arith

module _ (R : RingBuf) (p : Platform) (board : Board) (host : Host) where
  open R use {Ring}

  -- What the transmit ring took, in order.
  abbrev taken_by_uart : Device Ring → List ℕ
  taken_by_uart s = accepted s.bridge.calls

  relayed-accepted :
      (ack : List ℕ) (enable : Bool) (s : Device Ring)
      → taken_by_uart (cmd_ack_send host ack (relay_set board enable s)) ≡ taken_by_uart s
  relayed-accepted ack enable s =
      ap (λ b. accepted b.calls)
        (acked-bridge board host ack (relay_set board enable s)
          ∙ relay_set-bridge board host enable s)

  pub act_on-accepted :
      (k : Kind) (cmd : Cmd) (bytes scratch : List ℕ) (a : Arrivals) (s : Device Ring)
      → k ≢ Kind.none_cmd
      → taken_by_uart (act_on R p board host k cmd bytes scratch a s) ≡ taken_by_uart s
  unfolding act_on change_baud
  act_on-accepted Kind.none_cmd cmd bytes scratch a s h = absurd (h refl)
  act_on-accepted Kind.relay_enable cmd bytes scratch a s h = relayed-accepted _ true s
  act_on-accepted Kind.relay_disable cmd bytes scratch a s h = relayed-accepted _ false s
  act_on-accepted Kind.set_baud cmd bytes scratch a s h =
      if_both (λ (t : Device Ring). taken_by_uart t ≡ taken_by_uart s)
        ((uart_bridge_set_baud R p cmd.baud a s.bridge).0 ==ℤ pos 0)
        (cmd_ack_send host (take cmd.ack_len cmd.ack) changed) changed
        (λ _.
          ap (λ b. accepted b.calls) (acked-bridge board host (take cmd.ack_len cmd.ack) changed)
          ∙ set_baud-accepted R p cmd.baud a s.bridge)
        (λ _. set_baud-accepted R p cmd.baud a s.bridge)
    where
      changed : Device Ring
      changed = record s { bridge = (uart_bridge_set_baud R p cmd.baud a s.bridge).1 }
  act_on-accepted Kind.invalid cmd bytes scratch a s h = refl

  framed-kind :
      (bytes : List ℕ) (k : Kind) (n : ℕ)
      → IsFramed bytes
      → Classifies bytes k n
      → k ≢ Kind.none_cmd
  framed-kind bytes _ _ f (plain unframed) e = unframed f
  framed-kind bytes k n f c e = cc e

  -- A chunk that is framed as a device-control packet is always handled here, and never reaches the
  -- UART: neither when it is malformed, nor when acting on it fails, nor before the link is
  -- encrypted.
  pub command_never_forwarded :
      (bytes : List ℕ) (cmd : Cmd) (scratch : List ℕ) (a : Arrivals) (s : Device Ring)
      → All IsByte bytes
      → IsFramed bytes
      → (t : Device Ring) × (nus_received R p board host bytes cmd scratch a s ≡ some t)
        × (accepted t.bridge.calls ≡ accepted s.bridge.calls)
  command_never_forwarded bytes cmd scratch a s octets f = elim (Bool-cases s.link_secure) [
    | inr unsafe ↦ (s, gated R p board host bytes cmd scratch a s unsafe, refl)
    | inl sec ↦
        let (k, c, e, answers) = proxy_cmd_parse_lem bytes cmd octets in
        (
          _,
          act_parsed R p board host bytes cmd scratch a s (k, c) sec e,
          act_on-accepted k c bytes scratch a s (framed-kind bytes k c.baud f answers.class),
        )
  ]
