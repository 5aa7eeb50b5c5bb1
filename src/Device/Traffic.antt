-- ===== src/Device/Traffic.antt =====
-- The data path keeps the invariant: it leaves the link alone, but for the relay commands of the
-- owner.
use nrf_proxy.Base.{
  ℕ, zero, suc, ◌≡◌, sym, ap, ◌∙◌, subst, ◌⊎◌, inl, inr, Bool, true, false, not, Option, some, List,
  ◌==◌, arith, Bool-cases, Option-cases, some-injective, if_true, if_false, ◌>>=◌, take, if_both,
}
use nrf_proxy.Base.Int.{pos, ◌==ℤ◌}
use nrf_proxy.Platform.{Platform}
use nrf_proxy.RingBuf.{RingBuf}
use nrf_proxy.Core.Command.{Kind, Cmd, proxy_cmd_parse}
use nrf_proxy.Core.Hooks.{on_ble_rx}
use nrf_proxy.Core.Send.{Verdict, proxy_send_result}
use nrf_proxy.Bridge.State.{Bridge}
use nrf_proxy.Bridge.Api.{Arrivals, uart_bridge_set_baud, uart_bridge_send}
use nrf_proxy.Device.State.{Host, Board, Device}
use nrf_proxy.Device.Relay.{relay_set, relay_apply}
use nrf_proxy.Device.Received.{
  nus_send, ack_loop, cmd_ack_send, forward, change_baud, act_on, nus_received,
}
use nrf_proxy.Device.Invariant.{
  Agree-Same, IsLinked, Same, Same-IsLinked, Same-IsReachable, IsReachable,
}
use nrf_proxy.Device.Keeps.{relay_set-IsLinked}
use nrf_proxy.Device.Timers.{Same-trans}

pub retry_both :
    {A : Type 0} (P : A → Type 0) (v : Verdict) (x y : A)
    → P x
    → P y
    → P (elim v [ Verdict.retry ↦ x | _ ↦ y ])
retry_both P Verdict.consumed x y h k = k
retry_both P Verdict.retry x y h k = h
retry_both P Verdict.dropped x y h k = k

module _ {Ring : Type 0} (board : Board) (host : Host) where
  pub bridge-Same : (s : Device Ring) (b : Bridge Ring) → Same board s (record s { bridge = b })
  bridge-Same s b = Agree-Same board _ _ (ground arith)

  pub sent-Same : (s : Device Ring) (bytes : List ℕ) → Same board s (nus_send host bytes s).1
  sent-Same s bytes = Agree-Same board _ _ (ground arith)

  ack_loop-Same :
      (tries : ℕ) (ack : List ℕ) (s : Device Ring) → Same board s (ack_loop host tries ack s)
  unfolding ack_loop
  ack_loop-Same zero ack s = bridge-Same s s.bridge
  ack_loop-Same (suc tries) ack s =
      retry_both (Same board s) (proxy_send_result (nus_send host ack s).0) _ _
        (Same-trans board host s _ _ (sent-Same s ack)
          (ack_loop-Same tries ack (nus_send host ack s).1))
        (sent-Same s ack)

  pub cmd_ack_send-Same : (ack : List ℕ) (s : Device Ring) → Same board s (cmd_ack_send host ack s)
  unfolding cmd_ack_send
  cmd_ack_send-Same ack s = ack_loop-Same 5 ack s

module _ (R : RingBuf) (p : Platform) (board : Board) (host : Host) where
  open R use {Ring}

  forward-Same :
      (bytes scratch : List ℕ) (s : Device Ring)
      → Same board s (forward R p board host bytes scratch s)
  unfolding forward
  forward-Same bytes scratch s =
      if_both (Same board s) ((on_ble_rx bytes scratch).0 == 0) s
        (record s {
          bridge =
              (uart_bridge_send R p (take (on_ble_rx bytes scratch).0 (on_ble_rx bytes scratch).1)
                s.bridge).1;
        })
        (λ _. bridge-Same board host s s.bridge) (λ _. bridge-Same board host s _)

  change_baud-Same :
      (cmd : Cmd) (arrivals : Arrivals) (s : Device Ring)
      → Same board s (change_baud R p board host cmd arrivals s)
  unfolding change_baud
  change_baud-Same cmd arrivals s =
      if_both (Same board s) ((uart_bridge_set_baud R p cmd.baud arrivals s.bridge).0 ==ℤ pos 0)
        (cmd_ack_send host (take cmd.ack_len cmd.ack) t) t
        (λ _.
          Same-trans board host s t _ start
            (cmd_ack_send-Same board host (take cmd.ack_len cmd.ack) t))
        (λ _. start)
    where
      t : Device Ring
      t = record s { bridge = (uart_bridge_set_baud R p cmd.baud arrivals s.bridge).1 }

      start : Same board s t
      start = bridge-Same board host s t.bridge

  relayed-IsLinked :
      (s : Device Ring) (enable : Bool) (ack : List ℕ)
      → s.current_conn ≡ true
      → s.link_secure ≡ true
      → IsLinked board s
      → IsLinked board (cmd_ack_send host ack (relay_set board enable s))
  relayed-IsLinked s enable ack up sec v =
      Same-IsLinked board _ _ (cmd_ack_send-Same board host ack (relay_set board enable s))
        (relay_set-IsLinked board host s enable up sec v)

  act_on-IsLinked :
      (k : Kind) (cmd : Cmd) (bytes scratch : List ℕ) (arrivals : Arrivals) (s : Device Ring)
      → s.current_conn ≡ true
      → s.link_secure ≡ true
      → IsLinked board s
      → IsLinked board (act_on R p board host k cmd bytes scratch arrivals s)
  unfolding act_on
  act_on-IsLinked Kind.none_cmd cmd bytes scratch arrivals s up sec v =
      Same-IsLinked board s _ (forward-Same bytes scratch s) v
  act_on-IsLinked Kind.relay_enable cmd bytes scratch arrivals s up sec v =
      relayed-IsLinked s true _ up sec v
  act_on-IsLinked Kind.relay_disable cmd bytes scratch arrivals s up sec v =
      relayed-IsLinked s false _ up sec v
  act_on-IsLinked Kind.set_baud cmd bytes scratch arrivals s up sec v =
      Same-IsLinked board s _ (change_baud-Same cmd arrivals s) v
  act_on-IsLinked Kind.invalid cmd bytes scratch arrivals s up sec v = v

  relay_set-IsReachable :
      (s : Device Ring) (enable : Bool) (w : Bool)
      → IsReachable board w s
      → IsReachable board w (relay_set board enable s)
  unfolding relay_set relay_apply
  relay_set-IsReachable s enable w h = ground arith

  relayed-IsReachable :
      (s : Device Ring) (enable : Bool) (ack : List ℕ) (w : Bool)
      → IsReachable board w s
      → IsReachable board w (cmd_ack_send host ack (relay_set board enable s))
  relayed-IsReachable s enable ack w h =
      Same-IsReachable board (relay_set board enable s) _ w
        (cmd_ack_send-Same board host ack (relay_set board enable s))
        (relay_set-IsReachable s enable w h)

  act_on-IsReachable :
      (k : Kind) (cmd : Cmd) (bytes scratch : List ℕ) (arrivals : Arrivals) (s : Device Ring)
      (w : Bool)
      → IsReachable board w s
      → IsReachable board w (act_on R p board host k cmd bytes scratch arrivals s)
  unfolding act_on
  act_on-IsReachable Kind.none_cmd cmd bytes scratch arrivals s w h =
      Same-IsReachable board s _ w (forward-Same bytes scratch s) h
  act_on-IsReachable Kind.relay_enable cmd bytes scratch arrivals s w h =
      relayed-IsReachable s true _ w h
  act_on-IsReachable Kind.relay_disable cmd bytes scratch arrivals s w h =
      relayed-IsReachable s false _ w h
  act_on-IsReachable Kind.set_baud cmd bytes scratch arrivals s w h =
      Same-IsReachable board s _ w (change_baud-Same cmd arrivals s) h
  act_on-IsReachable Kind.invalid cmd bytes scratch arrivals s w h = h

  -- What `nus_received` may do: nothing, or, on an encrypted link, what the parsed command says.
  pub received-cases :
      (bytes : List ℕ) (cmd : Cmd) (scratch : List ℕ) (arrivals : Arrivals) (s t : Device Ring)
      → nus_received R p board host bytes cmd scratch arrivals s ≡ some t
      → (t ≡ s)
        ⊎ (s.link_secure ≡ true)
          × (r : Kind × Cmd) × (proxy_cmd_parse bytes cmd ≡ some r)
          × (t ≡ act_on R p board host r.0 r.1 bytes scratch arrivals s)
  unfolding nus_received
  received-cases bytes cmd scratch arrivals s t e = elim (Bool-cases s.link_secure) [
    | inr unsafe ↦ inl (
        sym (
          some-injective s t
            (sym (if_true (not s.link_secure) (some s) parse (ap not unsafe)) ∙ e)))
    | inl sec ↦
        let taken : parse ≡ some t =
          sym (if_false (not s.link_secure) (some s) parse (ap not sec)) ∙ e in
        elim (Option-cases (proxy_cmd_parse bytes cmd)) [
          | inl failed ↦ absurd (cc taken)
          | inr (r, parsed) ↦
              inr (sec, r, parsed, some-injective t _ (sym taken ∙ ap (λ o. o >>= answer) parsed))
        ]
  ]
    where
      answer : Kind × Cmd → Option (Device Ring)
      answer r = some (act_on R p board host r.0 r.1 bytes scratch arrivals s)

      parse : Option (Device Ring)
      parse = proxy_cmd_parse bytes cmd >>= answer

  pub received-IsLinked :
      (bytes : List ℕ) (cmd : Cmd) (scratch : List ℕ) (arrivals : Arrivals) (s t : Device Ring)
      → nus_received R p board host bytes cmd scratch arrivals s ≡ some t
      → IsLinked board s
      → IsLinked board t
  received-IsLinked bytes cmd scratch arrivals s t e v =
      elim (received-cases bytes cmd scratch arrivals s t e) [
        | inl same ↦ subst (IsLinked board) (sym same) v
        | inr (sec, r, parsed, acted) ↦
            subst (IsLinked board) (sym acted)
              (act_on-IsLinked r.0 r.1 bytes scratch arrivals s (v.secure sec) sec v)
      ]

  pub received-IsReachable :
      (bytes : List ℕ) (cmd : Cmd) (scratch : List ℕ) (arrivals : Arrivals) (s t : Device Ring)
      (w : Bool)
      → nus_received R p board host bytes cmd scratch arrivals s ≡ some t
      → IsReachable board w s
      → IsReachable board w t
  received-IsReachable bytes cmd scratch arrivals s t w e h =
      elim (received-cases bytes cmd scratch arrivals s t e) [
        | inl same ↦ subst (IsReachable board w) (sym same) h
        | inr (sec, r, parsed, acted) ↦
            subst (IsReachable board w) (sym acted)
              (act_on-IsReachable r.0 r.1 bytes scratch arrivals s w h)
      ]
