-- ===== src/Device/Commands.antt =====
-- What `nus_received` does with each kind of chunk, and its acknowledgements.
use nrf_proxy.Base.{
  ℕ, zero, suc, Bool, ◌+◌, ◌≤◌, ◌<◌, ◌≡◌, ◌≢◌, refl, sym, ap, ◌∙◌, ◌⊎◌, inl, inr, true, false, not,
  Option, some, List, ◌++◌, arith, if◌then◌else◌, if_true, if_false, ◌>>=◌, take, length, ◌^◌,
}
use nrf_proxy.Base.Int.{ℤ, pos, ◌==ℤ◌, ==ℤ_iff}
use nrf_proxy.Platform.{Platform, cancelled}
use nrf_proxy.RingBuf.{RingBuf}
use nrf_proxy.Core.Command.{Kind, Cmd, proxy_cmd_parse, proxy_baud_supported}
use nrf_proxy.Core.Command.Packets.{baud_packet, echoed, parse-baud_packet}
use nrf_proxy.Core.Send.{proxy_send_result}
use nrf_proxy.Bridge.Api.{Arrivals, uart_bridge_set_baud}
use nrf_proxy.Bridge.Baud.{rate, set_baud-Tells}
use nrf_proxy.Device.State.{Host, Board, Device}
use nrf_proxy.Device.Received.{nus_send, ack_loop, cmd_ack_send, change_baud, act_on, nus_received}
use nrf_proxy.Device.Sending.{
  delivered, Verdict-cases, consumed_ok, retry_failed, dropped_failed, taken, refused,
}

not_zero : (err : ℤ) → err ≢ pos 0 → (err ==ℤ pos 0) ≡ false
not_zero err h = ground (arith, ==ℤ_iff err (pos 0))

module _ {Ring : Type 0} (host : Host) where
  -- The tries of an acknowledgement, and what reached the phone.
  abbrev pub IsAcked : List ℕ → ℕ → Device Ring → Device Ring → Type 0
  IsAcked ack tries s t =
      (length t.calls ≤ length s.calls + tries)
      × ((delivered t.calls ≡ delivered s.calls) ⊎ (delivered t.calls ≡ delivered s.calls ++ ack))

  ack_loop-IsAcked :
      (tries : ℕ) (ack : List ℕ) (s : Device Ring) → IsAcked ack tries s (ack_loop host tries ack s)
  unfolding ack_loop
  ack_loop-IsAcked zero ack s = (omega arith, inl refl)
  ack_loop-IsAcked (suc tries) ack s =
      elim (Verdict-cases (proxy_send_result (host.nus_send_err s.calls ack))) [
        | inl consumed ↦
            rw (consumed, ack_loop) (omega arith, inr (taken host 0 ack s (consumed_ok _ consumed)))
        | inr (inl retry) ↦
            let (few, got) = ack_loop-IsAcked tries ack (nus_send host ack s).1 in
            let same = refused host 0 ack s (retry_failed _ retry) in
            rw (retry, ack_loop) (omega (arith, few), rw (sym same) got)
        | inr (inr dropped) ↦
            rw (dropped, ack_loop)
              (omega arith, inl (refused host 0 ack s (dropped_failed _ dropped)))
      ]

  -- An acknowledgement makes at most five attempts, always returns, and reaches the phone at most
  -- once and only whole.
  pub ack_at_most_once :
      (ack : List ℕ) (s : Device Ring) → IsAcked ack 5 s (cmd_ack_send host ack s)
  unfolding cmd_ack_send
  ack_at_most_once ack s = ack_loop-IsAcked 5 ack s

  -- An acknowledgement leaves the relay and the bridge alone.
  abbrev Unmoved : Device Ring → Device Ring → Type 0
  Unmoved s t =
      (t.relay_pin ≡ s.relay_pin)
      × (t.relay_enabled ≡ s.relay_enabled)
      × (t.relay_grace_work ≡ s.relay_grace_work)
      × (t.bridge ≡ s.bridge)

module _ (R : RingBuf) (p : Platform) (board : Board) (host : Host) where
  open R use {Ring}

  pub act_parsed :
      (bytes : List ℕ) (cmd : Cmd) (scratch : List ℕ) (arrivals : Arrivals) (s : Device Ring)
      (r : Kind × Cmd)
      → s.link_secure ≡ true
      → proxy_cmd_parse bytes cmd ≡ some r
      → nus_received R p board host bytes cmd scratch arrivals s
        ≡ some (act_on R p board host r.0 r.1 bytes scratch arrivals s)
  unfolding nus_received
  act_parsed bytes cmd scratch arrivals s r sec parsed =
      if_false (not s.link_secure) (some s) (proxy_cmd_parse bytes cmd >>= answer) (ap not sec)
      ∙ ap (λ o. o >>= answer) parsed
    where
      answer : Kind × Cmd → Option (Device Ring)
      answer k = some (act_on R p board host k.0 k.1 bytes scratch arrivals s)

  rate_changed :
      (cmd : Cmd) (bytes scratch : List ℕ) (arrivals : Arrivals) (s : Device Ring)
      → (uart_bridge_set_baud R p cmd.baud arrivals s.bridge).0 ≡ pos 0
      → act_on R p board host Kind.set_baud cmd bytes scratch arrivals s
        ≡ cmd_ack_send host
            (take cmd.ack_len cmd.ack)
            (record s { bridge = (uart_bridge_set_baud R p cmd.baud arrivals s.bridge).1 })
  unfolding act_on change_baud
  rate_changed cmd bytes scratch arrivals s ok =
      if_true _ _ _ ((==ℤ_iff (uart_bridge_set_baud R p cmd.baud arrivals s.bridge).0 (pos 0)).1 ok)

  rate_kept :
      (cmd : Cmd) (bytes scratch : List ℕ) (arrivals : Arrivals) (s : Device Ring)
      → (uart_bridge_set_baud R p cmd.baud arrivals s.bridge).0 ≢ pos 0
      → act_on R p board host Kind.set_baud cmd bytes scratch arrivals s
        ≡ record s { bridge = (uart_bridge_set_baud R p cmd.baud arrivals s.bridge).1 }
  unfolding act_on change_baud
  rate_kept cmd bytes scratch arrivals s failed =
      if_false _ _ _ (not_zero (uart_bridge_set_baud R p cmd.baud arrivals s.bridge).0 failed)

  pub gated :
      (bytes : List ℕ) (cmd : Cmd) (scratch : List ℕ) (arrivals : Arrivals) (s : Device Ring)
      → s.link_secure ≡ false
      → nus_received R p board host bytes cmd scratch arrivals s ≡ some s
  unfolding nus_received
  gated bytes cmd scratch arrivals s unsafe = if_true (not s.link_secure) (some s) _ (ap not unsafe)

  -- A baud command for a supported rate, on an encrypted link: either the rate change failed, no
  -- echo is sent and the rate is the one before, or the new rate is in effect and then, only then,
  -- the exact packet is sent back.
  pub baud_echo_means_live :
      (n : ℕ) (cmd : Cmd) (scratch : List ℕ) (arrivals : Arrivals) (s : Device Ring)
      → n < 2 ^ 32
      → proxy_baud_supported n ≡ true
      → s.link_secure ≡ true
      → let b = (uart_bridge_set_baud R p n arrivals s.bridge).1 in
        let got = nus_received R p board host (baud_packet n) cmd scratch arrivals s in
        (got ≡ some (record s { bridge = b })) × (rate b.calls ≡ rate s.bridge.calls)
        ⊎ (got ≡ some (cmd_ack_send host (baud_packet n) (record s { bridge = b })))
          × (rate b.calls ≡ some n)
  baud_echo_means_live n cmd scratch arrivals s lt sup sec =
      elim (set_baud-Tells R p n arrivals s.bridge) [
        | inl (ok, live) ↦
            inr (acted ∙ ap some (rate_changed _ (baud_packet n) scratch arrivals s ok), live)
        | inr (failed, before) ↦
            inl (acted ∙ ap some (rate_kept _ (baud_packet n) scratch arrivals s failed), before)
      ]
    where
      parsed :
          proxy_cmd_parse (baud_packet n) cmd
          ≡ some (Kind.set_baud, echoed cmd (baud_packet n) Kind.set_baud n)
      parsed = parse-baud_packet n cmd lt ∙ if_true _ _ _ sup

      acted :
          nus_received R p board host (baud_packet n) cmd scratch arrivals s
          ≡ some (
              act_on R p board host Kind.set_baud
                (echoed cmd (baud_packet n) Kind.set_baud n)
                (baud_packet n)
                scratch
                arrivals
                s)
      acted = act_parsed (baud_packet n) cmd scratch arrivals s _ sec parsed

  -- What a switch of the relay, acknowledged, leaves: the board's relay as asked, no grace pending,
  -- the bridge alone, and the packet sent back.
  abbrev IsSwitched : Bool → List ℕ → Device Ring → Device Ring → Type 0
  IsSwitched enable packet s t =
      (t.relay_pin ≡ (if board.relay_port then enable else s.relay_pin))
      × (t.relay_enabled ≡ (if board.relay_port then enable else s.relay_enabled))
      × (t.relay_grace_work ≡ cancelled)
      × (t.bridge ≡ s.bridge)
      × IsAcked host packet 5 s t
