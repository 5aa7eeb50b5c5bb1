-- ===== src/Device/Undisturbed/Rounds.antt =====
-- The inner loop of `ble_write_thread` and a whole round, out of the thread's steps.
use nrf_proxy.Base.{
  ℕ, zero, suc, ◌+◌, ◌-◌, ◌≡◌, refl, sym, ◌∙◌, subst, Bool, true, false, not, none, some, List,
  ◌==◌, ◌>>=◌, arith, length, if_both, if_true, if_false, Option-cases, inl, inr, ◌<◌, ◌^◌, ◌*◌, [],
}
use nrf_proxy.Platform.{Platform}
use nrf_proxy.RingBuf.{RingBuf}
use nrf_proxy.Core.Hooks.{on_uart_rx}
use nrf_proxy.Core.Link.{proxy_may_forward}
use nrf_proxy.Core.Send.{proxy_nus_chunk_limit}
use nrf_proxy.Bridge.State.{Bridge}
use nrf_proxy.Bridge.Api.{
  uart_bridge_rx_is_empty, uart_bridge_rx_claim, drain_loop, uart_bridge_rx_drain,
}
use nrf_proxy.Bridge.Report.{uart_bridge_log_drops_if_due}
use nrf_proxy.Device.Phase.{Phase}
use nrf_proxy.Device.State.{Host, Device, Calls}
use nrf_proxy.Device.Writer.{send_claimed, write_loop, ble_write_round, forward_snapshot}
use nrf_proxy.Device.Thread.{at, wait_step, report_step, phase_step, writer_step}
use nrf_proxy.Device.Sending.{Settles}
use nrf_proxy.Device.Round.{write_round_total}
use nrf_proxy.Device.Writing.{Leaves, Leaves-bind, Leaves-weaken}
use nrf_proxy.Device.Undisturbed.{
  Turns, rest, Turns-trans, step_to, scratched, ringed, drain_loop-Turns, send_claimed-Turns,
  check_turn, gate_turn, claim_turn,
}

not-false : {b : Bool} → not b ≡ true → b ≡ false
not-false {b} h = ground arith

not-true : {b : Bool} → not b ≡ false → b ≡ true
not-true {b} h = ground arith

module _ (R : RingBuf) (p : Platform) (host : Host) where
  open R use {Ring, contents, pending}

  drain-Turns :
      (fuel : ℕ) (s : Device Ring)
      → Leaves
          (λ b.
            Turns R p host
              (at R p host Phase.draining s)
              (at R p host Phase.reporting (record s { bridge = b })))
          (uart_bridge_rx_drain R p fuel s.bridge)
  unfolding uart_bridge_rx_drain
  drain-Turns fuel s = elim (Option-cases (drain_loop R p fuel s.bridge.rx_ring)) [
    | inl out ↦
        let e : uart_bridge_rx_drain R p fuel s.bridge ≡ none =
          rw (out, uart_bridge_rx_drain) refl in
        subst (Leaves Drained) (sym e) tt
    | inr (ring, ended) ↦
        let e : uart_bridge_rx_drain R p fuel s.bridge ≡ some (record s.bridge { rx_ring = ring }) =
          rw (ended, uart_bridge_rx_drain) refl in
        subst (Leaves Drained) (sym e) (
          subst
            (Leaves (λ r.
              Turns R p host (at R p host Phase.draining s)
                (at R p host Phase.reporting (ringed R p host r s))))
            ended (drain_loop-Turns R p host fuel s.bridge.rx_ring s))
  ]
    where
      Drained : Bridge Ring → Type 0
      Drained b =
          Turns R p host (at R p host Phase.draining s)
            (at R p host Phase.reporting (record s { bridge = b }))

  -- From the test of the loop to the report.
  abbrev Ends : List ℕ → Device Ring → Device Ring → Type 0
  Ends buf s t =
      (buf' : List ℕ) × Turns R p host (at R p host Phase.checking (scratched R p host buf s))
        (at R p host Phase.reporting (scratched R p host buf' t))

  write_loop-Turns :
      (fuel : ℕ) (buf : List ℕ) (s : Device Ring)
      → Leaves (Ends buf s) (write_loop R p host fuel buf s)
  unfolding write_loop
  write_loop-Turns zero buf s = tt
  write_loop-Turns (suc fuel) buf s =
      let here = scratched R p host buf s in
      let max_send = proxy_nus_chunk_limit (host.att_mtu s.calls) in
      let chunk = (uart_bridge_rx_claim R p max_send s.bridge).0 in
      let b = (uart_bridge_rx_claim R p max_send s.bridge).1 in
      let claimed : Device Ring = record s { conn_refs = s.conn_refs + 1; bridge = b } in
      let P = Leaves (Ends buf s) in
      let gate = gate_turn R p host here in
      let held : Device Ring = record here { conn_refs = s.conn_refs + 1 } in
      let claim = claim_turn R p host held in
      if_both P ((uart_bridge_rx_is_empty R p s.bridge).0) (some s) _
        (λ empty. (
          buf,
          step_to R p host _ _ _ (check_turn R p host here ∙ if_true _ _ _ empty)
              (rest (at R p host Phase.reporting here)),
        ))
        (λ full.
          let checked = check_turn R p host here ∙ if_false _ _ _ full in
          if_both P (not (proxy_may_forward (forward_snapshot R p host s)))
            (uart_bridge_rx_drain R p fuel s.bridge >>= (λ c. some (record s { bridge = c }))) _
            (λ shut.
              let gated = gate ∙ if_false _ _ _ (not-false shut) in
              Leaves-bind
                (λ c.
                  Turns R p host (at R p host Phase.draining here)
                    (at R p host Phase.reporting (record here { bridge = c })))
                (Ends buf s) (uart_bridge_rx_drain R p fuel s.bridge) _ (drain-Turns fuel here)
                (λ c steps.
                  (buf, step_to R p host _ _ _ checked (step_to R p host _ _ _ gated steps))))
            (λ pass.
              let gated = gate ∙ if_true _ _ _ (not-true pass) in
              if_both P (length chunk == 0)
                (some (record claimed { conn_refs = claimed.conn_refs - 1 }))
                (send_claimed R p host fuel chunk max_send buf claimed
                  >>= write_loop R p host fuel (on_uart_rx chunk buf).1)
                (λ z. (
                  buf,
                  step_to R p host _ _ _ checked (
                      step_to R p host _ _ _ gated
                        (step_to R p host _ _ _ (claim ∙ if_true _ _ _ z) (rest _))),
                ))
                (λ nz.
                  Leaves-bind
                    (λ u.
                      Turns R p host
                        (at R p host (Phase.hooking chunk max_send)
                          (scratched R p host buf claimed))
                        (at R p host Phase.checking
                          (scratched R p host (on_uart_rx chunk buf).1 u)))
                    (Ends buf s) (send_claimed R p host fuel chunk max_send buf claimed)
                    (write_loop R p host fuel (on_uart_rx chunk buf).1)
                    (send_claimed-Turns R p host fuel chunk max_send buf claimed)
                    (λ u steps.
                      Leaves-weaken (Ends (on_uart_rx chunk buf).1 u) (Ends buf s)
                        (write_loop R p host fuel (on_uart_rx chunk buf).1 u)
                        (λ t more. (
                          more.0,
                          step_to R p host _ _ _ checked (
                              step_to R p host _ _ _ gated (
                                step_to R p host _ _ _ (claim ∙ if_false _ _ _ nz)
                                  (Turns-trans R p host _ _ _ steps more.1))),
                        ))
                        (write_loop-Turns fuel (on_uart_rx chunk buf).1 u)))))

  -- The report is the last step of a round, and the wait its first.
  wait_turn :
      (s : Device Ring)
      → s.bridge.rx_ready ≡ true
      → writer_step R p host (at R p host Phase.waiting s)
        ≡ at R p host Phase.checking (record s { bridge = record s.bridge { rx_ready = false } })
  unfolding writer_step phase_step wait_step
  wait_turn s given = rw given refl

  report_turn :
      (s : Device Ring)
      → writer_step R p host (at R p host Phase.reporting s)
        ≡ at R p host Phase.waiting
            (record s { bridge = (uart_bridge_log_drops_if_due p s.bridge).1 })
  unfolding writer_step phase_step report_step
  report_turn s = refl

  -- A result of `ble_write_round` is where the thread's own steps lead.
  round_is_run :
      (fuel : ℕ) (s t : Device Ring)
      → s.bridge.rx_ready ≡ true
      → ble_write_round R p host fuel s.writer_buf s ≡ some t
      → (buf : List ℕ) × Turns R p host
          (record s { writer = Phase.waiting })
          (record t { writer = Phase.waiting; writer_buf = buf })
  unfolding ble_write_round
  round_is_run fuel s t given e =
      let woken : Device Ring = record s { bridge = record s.bridge { rx_ready = false } } in
      subst (Leaves Back) e (
        Leaves-bind (Ends s.writer_buf woken) Back (write_loop R p host fuel s.writer_buf woken) _
          (write_loop-Turns fuel s.writer_buf woken)
          (λ u ends. (
            ends.0,
            step_to R p host _ _ _ (wait_turn s given) (
                Turns-trans R p host _ _ _ ends.1
                  (step_to R p host _ _ _ (report_turn (scratched R p host ends.0 u)) (rest _))),
          )))
    where
      Back : Device Ring → Type 0
      Back u =
          (buf : List ℕ) × Turns R p host (record s { writer = Phase.waiting })
            (record u { writer = Phase.waiting; writer_buf = buf })

  -- When shortages of buffers end (at most `bound` retries in a row), the thread waits with its
  -- semaphore given and no claim open: `ble_write_round`, with fuel that is enough, gives a result,
  -- and the thread's steps with nothing between them lead to its wait in that result, where only
  -- `proc_buf` may hold other bytes, and with the receive ring empty.
  pub undisturbed_round :
      (bound : ℕ) (settles : Settles host bound) (s : Device Ring)
      → ((tr : Calls) → host.att_mtu tr < 2 ^ 16)
      → s.writer ≡ Phase.waiting
      → s.bridge.rx_ready ≡ true
      → pending s.bridge.rx_ring ≡ 0
      → let fuel =
          length (contents s.bridge.rx_ring) + length s.writer_buf * (bound + 1) + bound + 2 in
        (t : Device Ring) × (ble_write_round R p host fuel s.writer_buf s ≡ some t)
        × (contents t.bridge.rx_ring ≡ [])
        × (buf : List ℕ) × Turns R p host s (record t { writer = Phase.waiting; writer_buf = buf })
  undisturbed_round bound settles s mtu parked given free =
      let fuel =
        length (contents s.bridge.rx_ring) + length s.writer_buf * (bound + 1) + bound + 2 in
      let (t, e, empty) =
        write_round_total R p host bound fuel settles s.writer_buf s mtu free (omega arith) in
      let (buf, steps) = round_is_run fuel s t given e in
      let end : Device Ring = record t { writer = Phase.waiting; writer_buf = buf } in
      (
        t,
        e,
        empty,
        buf,
        subst (λ phase. Turns R p host (record s { writer = phase }) end) (sym parked) steps,
      )
