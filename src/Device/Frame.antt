-- ===== src/Device/Frame.antt =====
-- What the data path leaves alone: whatever does not look at the bridge, at the notifications, at
-- the relay, or at the writer thread's own variables.
use nrf_proxy.Base.{
  ℕ, zero, suc, ◌≡◌, refl, ap, ◌∙◌, inl, inr, Bool, true, false, List, some, ◌==◌, take, if_both,
  length, drop, ◌+◌,
}
use nrf_proxy.Base.Int.{ℤ, pos, ◌==ℤ◌}
use nrf_proxy.Platform.{Platform}
use nrf_proxy.RingBuf.{RingBuf}
use nrf_proxy.Core.Command.{Kind, Cmd}
use nrf_proxy.Core.Hooks.{on_ble_rx}
use nrf_proxy.Core.Link.{proxy_may_forward}
use nrf_proxy.Core.Send.{proxy_send_result, proxy_nus_chunk_limit, proxy_next_slice}
use nrf_proxy.Bridge.State.{Bridge}
use nrf_proxy.Bridge.Api.{
  Arrivals, uart_bridge_set_baud, uart_bridge_rx_is_empty, uart_bridge_rx_claim,
}
use nrf_proxy.Device.State.{HostCall, Host, Board, Device, log_host}
use nrf_proxy.Device.Relay.{relay_set}
use nrf_proxy.Device.Received.{
  nus_send, ack_loop, cmd_ack_send, forward, change_baud, act_on, nus_received,
}
use nrf_proxy.Device.Traffic.{retry_both, received-cases}
use nrf_proxy.Device.Phase.{
  Phase, waiting, checking, gating, draining, drained, claiming, hooking, sending, releasing,
  reporting,
}
use nrf_proxy.Device.Thread.{
  wait_step, check_step, gate_step, drain_step, drained_step, claim_step, hook_step, send_step,
  release_step, report_step, phase_step, writer_step, at,
}
use nrf_proxy.Device.Writer.{forward_snapshot}
use nrf_proxy.Device.Writing.{Verdict_both}

module _ (R : RingBuf) (p : Platform) (board : Board) (host : Host) {A : Type 0}
    (view : Device R.Ring → A)
    (bridged : (s : Device R.Ring) (b : Bridge R.Ring) → view (record s { bridge = b }) ≡ view s)
    (sent : (s : Device R.Ring) (bytes : List ℕ) (err : ℤ)
      → view (log_host (HostCall.nus_send bytes err) s) ≡ view s) where
  open R use {Ring}

  module _
      (relayed : (s : Device R.Ring) (enable : Bool)
        → view (relay_set board enable s) ≡ view s) where
    ack_loop-view :
        (tries : ℕ) (ack : List ℕ) (s : Device Ring) → view (ack_loop host tries ack s) ≡ view s
    unfolding ack_loop
    ack_loop-view zero ack s = refl
    ack_loop-view (suc tries) ack s =
        retry_both (λ (t : Device Ring). view t ≡ view s)
          (proxy_send_result (nus_send host ack s).0) _ _
          (ack_loop-view tries ack (nus_send host ack s).1 ∙ sent s ack _) (sent s ack _)

    acked-view : (ack : List ℕ) (s : Device Ring) → view (cmd_ack_send host ack s) ≡ view s
    unfolding cmd_ack_send
    acked-view ack s = ack_loop-view 5 ack s

    act_on-view :
        (kind : Kind) (cmd : Cmd) (bytes scratch : List ℕ) (arrivals : Arrivals) (s : Device Ring)
        → view (act_on R p board host kind cmd bytes scratch arrivals s) ≡ view s
    unfolding act_on forward change_baud
    act_on-view Kind.none_cmd cmd bytes scratch arrivals s =
        if_both (λ (t : Device Ring). view t ≡ view s) ((on_ble_rx bytes scratch).0 == 0) s _
          (λ _. refl) (λ _. bridged s _)
    act_on-view Kind.relay_enable cmd bytes scratch arrivals s =
        acked-view _ (relay_set board true s) ∙ relayed s true
    act_on-view Kind.relay_disable cmd bytes scratch arrivals s =
        acked-view _ (relay_set board false s) ∙ relayed s false
    act_on-view Kind.set_baud cmd bytes scratch arrivals s =
        if_both (λ (t : Device Ring). view t ≡ view s)
          ((uart_bridge_set_baud R p cmd.baud arrivals s.bridge).0 ==ℤ pos 0) _ _
          (λ _. acked-view (take cmd.ack_len cmd.ack) _ ∙ bridged s _) (λ _. bridged s _)
    act_on-view Kind.invalid cmd bytes scratch arrivals s = refl

    pub received-view :
        (bytes : List ℕ) (cmd : Cmd) (scratch : List ℕ) (arrivals : Arrivals) (s t : Device Ring)
        → nus_received R p board host bytes cmd scratch arrivals s ≡ some t
        → view t ≡ view s
    received-view bytes cmd scratch arrivals s t e =
        elim (received-cases R p board host bytes cmd scratch arrivals s t e) [
          | inl same ↦ ap view same
          | inr (sec, r, parsed, acted) ↦
              ap view acted ∙ act_on-view r.0 r.1 bytes scratch arrivals s
        ]

  module _
      (own : (s : Device R.Ring) (phase : Phase) (refs : ℕ) (buf : List ℕ)
        → view (record s { writer = phase; conn_refs = refs; writer_buf = buf }) ≡ view s) where
    placed : (s : Device Ring) (phase : Phase) → view (record s { writer = phase }) ≡ view s
    placed s phase = own s phase s.conn_refs s.writer_buf

    phase_step-view :
        (phase : Phase) (s : Device Ring) → view (phase_step R p host phase s) ≡ view s
    unfolding phase_step wait_step check_step gate_step drain_step drained_step claim_step hook_step
        send_step release_step report_step
    phase_step-view waiting s =
        if_both (λ (t : Device Ring). view t ≡ view s) s.bridge.rx_ready _ s
          (λ _. placed (record s { bridge = _ }) _ ∙ bridged s _) (λ _. refl)
    phase_step-view checking s =
        if_both (λ (t : Device Ring). view t ≡ view s) ((uart_bridge_rx_is_empty R p s.bridge).0) _
          _ (λ _. placed s _) (λ _. placed s _)
    phase_step-view gating s =
        if_both (λ (t : Device Ring). view t ≡ view s)
          (proxy_may_forward (forward_snapshot R p host s)) _ _ (λ _. own s _ _ s.writer_buf)
          (λ _. placed s _)
    phase_step-view draining s = placed (record s { bridge = _ }) _ ∙ bridged s _
    phase_step-view (drained n) s = placed (record s { bridge = _ }) _ ∙ bridged s _
    phase_step-view claiming s =
        let max_send = proxy_nus_chunk_limit (host.att_mtu s.calls) in
        let chunk = (uart_bridge_rx_claim R p max_send s.bridge).0 in
        if_both (λ (t : Device Ring). view t ≡ view s) (length chunk == 0) _ _
          (λ _. own (record s { bridge = _ }) _ _ s.writer_buf ∙ bridged s _)
          (λ _. placed (record s { bridge = _ }) _ ∙ bridged s _)
    phase_step-view (hooking chunk max_send) s =
        own (record s { bridge = _ }) _ s.conn_refs _ ∙ bridged s _
    phase_step-view (sending input at_byte max_send) s =
        let slice = proxy_next_slice (length input) at_byte max_send in
        let bytes = take slice (drop at_byte input) in
        let t = (nus_send host bytes s).1 in
        if_both (λ (t : Device Ring). view t ≡ view s) (slice == 0) _ _ (λ _. placed s _)
          (λ _.
            Verdict_both (λ (u : Device Ring). view u ≡ view s)
              (proxy_send_result (nus_send host bytes s).0)
              (at R p host (Phase.sending input (at_byte + slice) max_send) t) t
              (at R p host Phase.releasing t) (placed t _ ∙ sent s bytes _) (sent s bytes _)
              (placed t _ ∙ sent s bytes _))
    phase_step-view releasing s = own s _ _ s.writer_buf
    phase_step-view reporting s = placed (record s { bridge = _ }) _ ∙ bridged s _

    pub writer_step-view : (s : Device Ring) → view (writer_step R p host s) ≡ view s
    unfolding writer_step
    writer_step-view s = phase_step-view s.writer s
