-- ===== src/Device/Downlink/Replies.antt =====
-- The acknowledgement of a command (`cmd_ack_send`), against the packet that asked for it.
use nrf_proxy.Base.{
  ℕ, zero, suc, ◌≡◌, ◌≢◌, refl, sym, ap, ◌∙◌, ◌⊎◌, inl, inr, subst, Bool, true, false, List, ◌∷◌,
  ◌==◌, some, arith, take, if_both, some-injective,
}
use nrf_proxy.Base.Int.{pos, ◌==ℤ◌}
use nrf_proxy.Platform.{Platform}
use nrf_proxy.RingBuf.{RingBuf}
use nrf_proxy.Core.Command.{Kind, Cmd, proxy_cmd_parse}
use nrf_proxy.Core.Command.Framing.{IsFramed, framed-cases, framed_iff}
use nrf_proxy.Core.Command.Packets.{parse-plain}
use nrf_proxy.Core.Command.Echo.{parse-echo}
use nrf_proxy.Core.Hooks.{on_ble_rx}
use nrf_proxy.Core.Send.{proxy_send_result}
use nrf_proxy.Bridge.Api.{Arrivals, uart_bridge_set_baud}
use nrf_proxy.Device.State.{Host, Board, Device}
use nrf_proxy.Device.Relay.{relay_apply, relay_set}
use nrf_proxy.Device.Received.{
  nus_send, ack_loop, cmd_ack_send, forward, change_baud, act_on, nus_received,
}
use nrf_proxy.Device.Sending.{Verdict-cases, consumed_ok, retry_failed, dropped_failed}
use nrf_proxy.Device.Aside.{sends}
use nrf_proxy.Device.Traffic.{received-cases}

-- A device that has notified what `notes` says and at most one acknowledgement more, `ack`.
abbrev Replies : {Ring : Type 0} → List ℕ → List (List ℕ) → Device Ring → Type 0
Replies ack notes t = (sends t.calls ≡ notes) ⊎ (sends t.calls ≡ ack ∷ notes)

module _ {Ring : Type 0} (host : Host) where
  ack_loop-Replies :
      (tries : ℕ) (ack : List ℕ) (s : Device Ring)
      → Replies ack (sends s.calls) (ack_loop host tries ack s)
  unfolding ack_loop
  ack_loop-Replies zero ack s = inl refl
  ack_loop-Replies (suc tries) ack s =
      elim (Verdict-cases (proxy_send_result (host.nus_send_err s.calls ack))) [
        | inl consumed ↦ rw (consumed, ack_loop) (inr (rw (consumed_ok _ consumed) refl))
        | inr (inl retry) ↦
            let t = (nus_send host ack s).1 in
            let same : sends t.calls ≡ sends s.calls = rw (retry_failed _ retry) refl in
            rw (retry, ack_loop) (rw (sym same) (ack_loop-Replies tries ack t))
        | inr (inr dropped) ↦ rw (dropped, ack_loop) (inl (rw (dropped_failed _ dropped) refl))
      ]

  acked-Replies :
      (ack : List ℕ) (s : Device Ring) → Replies ack (sends s.calls) (cmd_ack_send host ack s)
  unfolding cmd_ack_send
  acked-Replies ack s = ack_loop-Replies 5 ack s

  relay_set-sends :
      (board : Board) (on : Bool) (s : Device Ring)
      → sends (relay_set board on s).calls ≡ sends s.calls
  unfolding relay_set relay_apply
  relay_set-sends board on s = ground arith

  relayed-Replies :
      (board : Board) (on : Bool) (ack : List ℕ) (s : Device Ring)
      → Replies ack (sends s.calls) (cmd_ack_send host ack (relay_set board on s))
  relayed-Replies board on ack s =
      subst (λ notes. Replies ack notes (cmd_ack_send host ack (relay_set board on s)))
        (relay_set-sends board on s) (acked-Replies ack (relay_set board on s))

module _ (R : RingBuf) (p : Platform) (board : Board) (host : Host) where
  open R use {Ring}

  -- Only an actionable command is acknowledged.
  act_on-Replies :
      (kind : Kind) (cmd : Cmd) (bytes scratch : List ℕ) (a : Arrivals) (s : Device Ring)
      → let t = act_on R p board host kind cmd bytes scratch a s in
        (sends t.calls ≡ sends s.calls)
        ⊎ (kind ≢ Kind.none_cmd)
          × (kind ≢ Kind.invalid)
          × Replies (take cmd.ack_len cmd.ack) (sends s.calls) t
  unfolding act_on change_baud forward
  act_on-Replies Kind.none_cmd cmd bytes scratch a s = inl (
      if_both (λ (t : Device Ring). sends t.calls ≡ sends s.calls)
        ((on_ble_rx bytes scratch).0 == 0) _ _ (λ _. refl) (λ _. refl))
  act_on-Replies Kind.relay_enable cmd bytes scratch a s =
      inr (λ h. cc, λ h. cc, relayed-Replies host board true (take cmd.ack_len cmd.ack) s)
  act_on-Replies Kind.relay_disable cmd bytes scratch a s =
      inr (λ h. cc, λ h. cc, relayed-Replies host board false (take cmd.ack_len cmd.ack) s)
  act_on-Replies Kind.set_baud cmd bytes scratch a s = inr (
    λ h. cc,
    λ h. cc,
    if_both (Replies (take cmd.ack_len cmd.ack) (sends s.calls))
        ((uart_bridge_set_baud R p cmd.baud a s.bridge).0 ==ℤ pos 0) _ _
        (λ _. acked-Replies host (take cmd.ack_len cmd.ack) _) (λ _. inl refl),
  )
  act_on-Replies Kind.invalid cmd bytes scratch a s = inl refl

  -- A chunk that the parser does not take for plain data is framed.
  parsed-IsFramed :
      (bytes : List ℕ) (cmd : Cmd) (r : Kind × Cmd)
      → proxy_cmd_parse bytes cmd ≡ some r
      → r.0 ≢ Kind.none_cmd
      → IsFramed bytes
  parsed-IsFramed bytes cmd r parsed ours = elim (framed-cases bytes) [
    | inl gate ↦ (framed_iff bytes).0 gate
    | inr shut ↦
        let unframed : ¬ IsFramed bytes = λ f. cc (shut, (framed_iff bytes).1 f) in
        let same = some-injective r _ (sym parsed ∙ parse-plain bytes cmd unframed) in
        absurd (ours (ap (λ (k : Kind × Cmd). k.0) same))
  ]

  -- What received data does to the notifications: nothing, or, for a framed chunk over an encrypted
  -- link, one more, which is the chunk.
  pub received-sends :
      (bytes : List ℕ) (cmd : Cmd) (scratch : List ℕ) (a : Arrivals) (s t : Device Ring)
      → nus_received R p board host bytes cmd scratch a s ≡ some t
      → (sends t.calls ≡ sends s.calls)
        ⊎ (s.link_secure ≡ true) × IsFramed bytes × (sends t.calls ≡ bytes ∷ sends s.calls)
  received-sends bytes cmd scratch a s t e =
      elim (received-cases R p board host bytes cmd scratch a s t e) [
        | inl same ↦ inl (ap (λ (d : Device Ring). sends d.calls) same)
        | inr (sec, r, parsed, acted) ↦
            let did = ap (λ (d : Device Ring). sends d.calls) acted in
            elim (act_on-Replies r.0 r.1 bytes scratch a s) [
              | inl same ↦ inl (did ∙ same)
              | inr (ours, good, inl same) ↦ inl (did ∙ same)
              | inr (ours, good, inr one) ↦
                  let f = parsed-IsFramed bytes cmd r parsed ours in
                  let echo = parse-echo bytes cmd r f parsed good in
                  inr (sec, f, did ∙ one ∙ ap (λ ack. ack ∷ sends s.calls) echo)
            ]
      ]
