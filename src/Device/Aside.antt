-- ===== src/Device/Aside.antt =====
-- What the callbacks and timers of src/main.c do to the bridge and the writer thread: nothing, but
-- for a wake-up. Received data reaches the bridge through its public functions only.
use nrf_proxy.Base.{
  ℕ, zero, suc, ◌≡◌, refl, sym, ◌∙◌, ◌⊎◌, inl, inr, subst, Bool, true, false, not, List, [], ◌∷◌,
  some, ◌==◌, arith, take, if_both, if◌then◌else◌,
}
use nrf_proxy.Base.Int.{pos, ◌==ℤ◌}
use nrf_proxy.Platform.{Platform, fired, cancelled}
use nrf_proxy.RingBuf.{RingBuf}
use nrf_proxy.Core.Command.{Kind, Cmd}
use nrf_proxy.Core.Hooks.{on_ble_rx}
use nrf_proxy.Core.Link.{proxy_should_start_adv}
use nrf_proxy.Core.Send.{proxy_send_result}
use nrf_proxy.Bridge.State.{Bridge}
use nrf_proxy.Bridge.Api.{Arrivals, uart_bridge_set_baud, uart_bridge_send}
use nrf_proxy.Device.State.{AdvParam, Calls, HostCall, Host, Board, Device, log_host}
use nrf_proxy.Device.Leds.{set_led, set_status_leds, adv_blink_handler}
use nrf_proxy.Device.Relay.{relay_apply, relay_set, relay_grace_handler, relay_grace_start}
use nrf_proxy.Device.Advertising.{advertising_start, slow_failed, adv_slow_handler}
use nrf_proxy.Device.Link.{
  accept_bonds, clear_accept_list, refresh_locked_mode, ref_unsecured_conn,
  security_timeout_handler, pairing_complete, on_connected, on_disconnected,
}
use nrf_proxy.Device.Received.{
  nus_send, ack_loop, cmd_ack_send, forward, change_baud, act_on, nus_received,
}
use nrf_proxy.Device.Traffic.{retry_both, received-cases}

-- The notifications that the host took, newest first.
abbrev pub sends : Calls → List (List ℕ)
sends [] = []
sends (HostCall.nus_send bytes err ∷ tr) = if err ==ℤ pos 0 then bytes ∷ sends tr else sends tr
sends (_ ∷ tr) = sends tr

module _ {Ring : Type 0} where
  -- No notification, and the bridge as it was, or with the writer's semaphore given.
  abbrev pub Aside : Device Ring → Device Ring → Type 0
  Aside s t =
      (t.writer ≡ s.writer)
      × ((t.bridge ≡ s.bridge) ⊎ (t.bridge ≡ record s.bridge { rx_ready = true }))
      × (sends t.calls ≡ sends s.calls)

module _ {Ring : Type 0} (board : Board) (host : Host) where
  pub on_connected-Aside : (s : Device Ring) (err : ℕ) → Aside s (on_connected board host err s)
  unfolding on_connected set_status_leds set_led
  on_connected-Aside s err = ground arith

  pub on_disconnected-Aside : (s : Device Ring) → Aside s (on_disconnected board host s)
  unfolding on_disconnected relay_grace_start
  on_disconnected-Aside s = ground arith

  pub advertising_start-Aside : (s : Device Ring) → Aside s (advertising_start board host s)
  unfolding advertising_start proxy_should_start_adv set_status_leds set_led
  advertising_start-Aside s = ground arith

  pub watchdog-Aside :
      (s : Device Ring)
      → Aside s (security_timeout_handler board host (record s { security_timeout_work = fired }))
  unfolding security_timeout_handler ref_unsecured_conn
  watchdog-Aside s = ground arith

  pub grace-Aside :
      (s : Device Ring)
      → Aside s (relay_grace_handler board (record s { relay_grace_work = fired }))
  unfolding relay_grace_handler relay_apply
  grace-Aside s = ground arith

  pub blink-Aside :
      (s : Device Ring) → Aside s (adv_blink_handler board (record s { adv_blink_work = fired }))
  unfolding adv_blink_handler
  blink-Aside s = ground arith

  accept_bonds-Aside :
      (bonds : List ℕ) (s t : Device Ring) → Aside s t → Aside s (accept_bonds board host bonds t)
  unfolding accept_bonds
  accept_bonds-Aside [] s t a = a
  accept_bonds-Aside (addr ∷ bonds) s t a = accept_bonds-Aside bonds s _ (ground arith)

  pub pairing_complete-Aside :
      (s : Device Ring) (bonded : Bool) → Aside s (pairing_complete board host bonded s)
  unfolding pairing_complete refresh_locked_mode
  pairing_complete-Aside s bonded =
      let a =
        accept_bonds-Aside (host.bonds s.calls) s (clear_accept_list board host s)
          (refl, inl refl, refl) in
      ground arith

  relay_set-Aside : (s : Device Ring) (enable : Bool) → Aside s (relay_set board enable s)
  unfolding relay_set relay_apply
  relay_set-Aside s enable = ground arith

  ack_loop-bridge :
      (tries : ℕ) (ack : List ℕ) (s : Device Ring)
      → ((ack_loop host tries ack s).bridge ≡ s.bridge)
        × ((ack_loop host tries ack s).writer ≡ s.writer)
  unfolding ack_loop
  ack_loop-bridge zero ack s = (refl, refl)
  ack_loop-bridge (suc tries) ack s =
      retry_both (λ (t : Device Ring). (t.bridge ≡ s.bridge) × (t.writer ≡ s.writer))
        (proxy_send_result (nus_send host ack s).0) _ _
        (ack_loop-bridge tries ack (nus_send host ack s).1) (refl, refl)

  pub cmd_ack_send-bridge :
      (ack : List ℕ) (s : Device Ring)
      → ((cmd_ack_send host ack s).bridge ≡ s.bridge)
        × ((cmd_ack_send host ack s).writer ≡ s.writer)
  unfolding cmd_ack_send
  cmd_ack_send-bridge ack s = ack_loop-bridge 5 ack s

  failed_start-Aside :
      (gap : Device Ring → Device Ring) (s t : Device Ring)
      → Aside s t
      → Aside t (gap t)
      → Aside s (slow_failed board host (gap t))
  unfolding slow_failed
  failed_start-Aside gap s t a b = ground arith

  pub slow-Aside :
      (gap : Device Ring → Device Ring) (s : Device Ring)
      → ((t : Device Ring) → Aside t (gap t))
      → Aside s (adv_slow_handler board host gap s)
  unfolding adv_slow_handler
  slow-Aside gap s aside =
      let stop_err = host.adv_stop_err s.calls in
      let stopped = log_host (HostCall.adv_stop stop_err) s in
      let param : AdvParam = record { slow = true; filtered = s.locked_mode } in
      let start_err = host.adv_start_err stopped.calls param in
      let failed : Device Ring = record s {
        adv_active = false;
        calls = HostCall.adv_start param start_err ∷ HostCall.adv_stop stop_err ∷ s.calls;
      } in
      let a = failed_start-Aside gap s failed (refl, inl refl, refl) (aside failed) in ground arith

module _ (R : RingBuf) (p : Platform) (board : Board) (host : Host) where
  open R use {Ring}

  module _ (P : Bridge Ring → Type 0)
      (sends : (bytes : List ℕ) (b : Bridge Ring) → P b → P (uart_bridge_send R p bytes b).1)
      (changes : (baud : ℕ) (a : Arrivals) (b : Bridge Ring)
        → P b
        → P (uart_bridge_set_baud R p baud a b).1) where
    -- `P` of the bridge is kept, and the writer left alone.
    abbrev Served : Device Ring → Device Ring → Type 0
    Served s t = P t.bridge × (t.writer ≡ s.writer)

    acked-Served :
        (ack : List ℕ) (s t : Device Ring) → Served s t → Served s (cmd_ack_send host ack t)
    acked-Served ack s t (h, w) =
        let e = cmd_ack_send-bridge board host ack t in (rw e.0 h, e.1 ∙ w)

    forward-Served :
        (bytes scratch : List ℕ) (s : Device Ring)
        → P s.bridge
        → Served s (forward R p board host bytes scratch s)
    unfolding forward
    forward-Served bytes scratch s h =
        if_both (Served s) ((on_ble_rx bytes scratch).0 == 0) s _ (λ _. (h, refl))
          (λ _. (sends _ s.bridge h, refl))

    change_baud-Served :
        (cmd : Cmd) (arrivals : Arrivals) (s : Device Ring)
        → P s.bridge
        → Served s (change_baud R p board host cmd arrivals s)
    unfolding change_baud
    change_baud-Served cmd arrivals s h =
        if_both (Served s) ((uart_bridge_set_baud R p cmd.baud arrivals s.bridge).0 ==ℤ pos 0)
          (cmd_ack_send host (take cmd.ack_len cmd.ack) t) t
          (λ _. acked-Served (take cmd.ack_len cmd.ack) s t changed) (λ _. changed)
      where
        t : Device Ring
        t = record s { bridge = (uart_bridge_set_baud R p cmd.baud arrivals s.bridge).1 }

        changed : Served s t
        changed = (changes cmd.baud arrivals s.bridge h, refl)

    relayed-Served :
        (enable : Bool) (ack : List ℕ) (s : Device Ring)
        → P s.bridge
        → Served s (cmd_ack_send host ack (relay_set board enable s))
    unfolding relay_set relay_apply
    relayed-Served enable ack s h = acked-Served ack s (relay_set board enable s) (
        if_both (Served s) (not board.relay_port) (record s { relay_grace_work = cancelled }) _
          (λ _. (h, refl)) (λ _. (h, refl)))

    act_on-Served :
        (kind : Kind) (cmd : Cmd) (bytes scratch : List ℕ) (arrivals : Arrivals) (s : Device Ring)
        → P s.bridge
        → Served s (act_on R p board host kind cmd bytes scratch arrivals s)
    unfolding act_on
    act_on-Served Kind.none_cmd cmd bytes scratch arrivals s h = forward-Served bytes scratch s h
    act_on-Served Kind.relay_enable cmd bytes scratch arrivals s h = relayed-Served true _ s h
    act_on-Served Kind.relay_disable cmd bytes scratch arrivals s h = relayed-Served false _ s h
    act_on-Served Kind.set_baud cmd bytes scratch arrivals s h = change_baud-Served cmd arrivals s h
    act_on-Served Kind.invalid cmd bytes scratch arrivals s h = (h, refl)

    -- Received data keeps of the bridge what its operations keep.
    pub received-keeps :
        (bytes : List ℕ) (cmd : Cmd) (scratch : List ℕ) (arrivals : Arrivals) (s t : Device Ring)
        → nus_received R p board host bytes cmd scratch arrivals s ≡ some t
        → P s.bridge
        → P t.bridge × (t.writer ≡ s.writer)
    received-keeps bytes cmd scratch arrivals s t e h =
        elim (received-cases R p board host bytes cmd scratch arrivals s t e) [
          | inl same ↦ subst (Served s) (sym same) (h, refl)
          | inr (sec, r, parsed, acted) ↦
              subst (Served s) (sym acted) (act_on-Served r.0 r.1 bytes scratch arrivals s h)
        ]
