-- ===== src/Device/Round.antt =====
-- A round of the writer thread ends, with the receive ring empty.
use nrf_proxy.Base.{
  ℕ, zero, suc, ◌+◌, ◌-◌, ◌*◌, ◌≤◌, ◌<◌, ◌≡◌, refl, ap, ◌∙◌, subst, false, not, Option, some, List,
  [], ◌==◌, arith, ◌>>=◌, take, drop, length, length-drop, length-take, if_both, bind-some, ◌^◌,
  ==_iff,
}
use nrf_proxy.Platform.{Platform}
use nrf_proxy.RingBuf.{RingBuf}
use nrf_proxy.Core.Hooks.{on_uart_rx, hooks_forward}
use nrf_proxy.Core.Send.{
  proxy_send_result, proxy_next_slice, proxy_nus_chunk_limit, chunk_limit_bounds,
}
use nrf_proxy.Core.Link.{proxy_may_forward}
use nrf_proxy.Bridge.State.{Bridge}
use nrf_proxy.Bridge.Api.{
  uart_bridge_rx_is_empty, uart_bridge_rx_claim, uart_bridge_rx_finish, uart_bridge_rx_drain,
}
use nrf_proxy.Bridge.Drain.{rx_drain_total, claim_le_contents, taken_contents}
use nrf_proxy.Bridge.Report.{uart_bridge_log_drops_if_due}
use nrf_proxy.Device.State.{Host, Device, Calls}
use nrf_proxy.Device.Received.{nus_send}
use nrf_proxy.Device.Writer.{
  send_loop, send_processed, send_claimed, write_loop, ble_write_round, forward_snapshot,
}
use nrf_proxy.Device.Sending.{Settles, send_processed_total, mul_mono}
use nrf_proxy.Device.Writing.{Leaves, Verdict_both}

module _ {Ring : Type 0} (host : Host) where
  pub send_loop-bridge :
      (fuel : ℕ) (input : List ℕ) (sent max_send : ℕ) (s : Device Ring)
      → Leaves (λ t. t.bridge ≡ s.bridge) (send_loop host fuel input sent max_send s)
  unfolding send_loop
  send_loop-bridge zero input sent max_send s = tt
  send_loop-bridge (suc fuel) input sent max_send s =
      let slice = proxy_next_slice (length input) sent max_send in
      let bytes = take slice (drop sent input) in
      let t : Device Ring = (nus_send host bytes s).1 in
      let P = Leaves (λ (u : Device Ring). u.bridge ≡ s.bridge) in
      if_both P (slice == 0) (some s) _ (λ _. refl)
        (λ _.
          Verdict_both P (proxy_send_result (nus_send host bytes s).0)
            (send_loop host fuel input (sent + slice) max_send t)
            (send_loop host fuel input sent max_send t) (some t)
            (send_loop-bridge fuel input (sent + slice) max_send t)
            (send_loop-bridge fuel input sent max_send t) refl)

  processed-bridge :
      (fuel : ℕ) (input : List ℕ) (max_send : ℕ) (s t : Device Ring)
      → send_processed host fuel input max_send s ≡ some t
      → t.bridge ≡ s.bridge
  unfolding send_processed
  processed-bridge fuel input max_send s t e =
      subst (Leaves (λ (u : Device Ring). u.bridge ≡ s.bridge)) e
        (send_loop-bridge fuel input 0 max_send s)

module _ (R : RingBuf) (p : Platform) (host : Host) (bound : ℕ) where
  open R use {Ring, contents, pending, claim, finish, claim_some, is_empty_iff}

  hooked_length :
      (chunk scratch : List ℕ)
      → length (take (on_uart_rx chunk scratch).0 (on_uart_rx chunk scratch).1) ≤ length scratch
  hooked_length chunk scratch =
      let hook = (hooks_forward chunk scratch).0 in
      omega (
        arith,
        length-take (on_uart_rx chunk scratch).0 (on_uart_rx chunk scratch).1,
        hook.0,
        hook.2,
      )

  send_claimed_total :
      (fuel : ℕ) (settles : Settles host bound) (chunk : List ℕ) (max_send : ℕ) (scratch : List ℕ)
      (s : Device Ring)
      → 0 < max_send
      → length scratch * (bound + 1) + bound < fuel
      → (t : Device Ring) × (send_claimed R p host fuel chunk max_send scratch s ≡ some t)
        × (t.bridge ≡ (uart_bridge_rx_finish R p (length chunk) s.bridge).1)
  unfolding send_claimed
  send_claimed_total fuel settles chunk max_send scratch s pos_max enough =
      let input = take (on_uart_rx chunk scratch).0 (on_uart_rx chunk scratch).1 in
      let held : Device Ring = record s {
        bridge = (uart_bridge_rx_finish R p (length chunk) s.bridge).1;
      } in
      let (t, e, o) = send_processed_total host bound fuel settles input max_send held pos_max (
        omega (
          arith,
          mul_mono (length input) (length scratch) (bound + 1) (hooked_length chunk scratch),
        )) in
      (
        record t { conn_refs = t.conn_refs - 1 },
        bind-some (send_processed host fuel input max_send held) _ t e,
        processed-bridge host fuel input max_send held t e,
      )

  -- A result, with the receive ring empty.
  abbrev Emptied : Option (Device Ring) → Type 0
  Emptied o = (t : Device Ring) × (o ≡ some t) × (contents t.bridge.rx_ring ≡ [])

  report-ring : (b : Bridge Ring) → (uart_bridge_log_drops_if_due p b).1.rx_ring ≡ b.rx_ring
  unfolding uart_bridge_log_drops_if_due
  report-ring b = ground arith

  write_loop_total :
      (fuel : ℕ) (settles : Settles host bound) (scratch : List ℕ) (s : Device Ring)
      → ((tr : Calls) → host.att_mtu tr < 2 ^ 16)
      → pending s.bridge.rx_ring ≡ 0
      → length (contents s.bridge.rx_ring) + length scratch * (bound + 1) + bound + 1 < fuel
      → Emptied (write_loop R p host fuel scratch s)
  unfolding write_loop uart_bridge_rx_is_empty uart_bridge_rx_claim uart_bridge_rx_finish
  write_loop_total zero settles scratch s mtu free enough = absurd (omega arith)
  write_loop_total (suc fuel) settles scratch s mtu free enough =
      let max_send = proxy_nus_chunk_limit (host.att_mtu s.calls) in
      let limits = chunk_limit_bounds (host.att_mtu s.calls) (mtu s.calls) in
      let chunk = (claim s.bridge.rx_ring max_send).0 in
      let claimed : Device Ring = record s {
        conn_refs = s.conn_refs + 1;
        bridge = record s.bridge { rx_ring = (claim s.bridge.rx_ring max_send).1 };
      } in
      let scratch' = (on_uart_rx chunk scratch).1 in
      if_both Emptied (R.is_empty s.bridge.rx_ring) (some s) _
        (λ empty. (s, refl, (is_empty_iff s.bridge.rx_ring free).0 empty))
        (λ full.
          if_both Emptied (not (proxy_may_forward (forward_snapshot R p host s)))
            (uart_bridge_rx_drain R p fuel s.bridge >>= (λ b. some (record s { bridge = b }))) _
            (λ _.
              let (ring, e, empty, closed) = rx_drain_total R p fuel s.bridge free (omega arith) in
              (
                record s { bridge = record s.bridge { rx_ring = ring } },
                bind-some (uart_bridge_rx_drain R p fuel s.bridge) _ _ e,
                empty,
              ))
            (λ _.
              if_both Emptied (length chunk == 0)
                (some (record claimed { conn_refs = claimed.conn_refs - 1 }))
                (send_claimed R p host fuel chunk max_send scratch claimed
                  >>= write_loop R p host fuel scratch')
                (λ none_claimed. absurd (
                  omega (
                    arith,
                    some_claimed max_send full limits.0,
                    (==_iff (length chunk) 0).0 none_claimed,
                  )))
                (λ _.
                  let (u, e, kept) =
                    send_claimed_total fuel settles chunk max_send scratch claimed limits.0
                      (omega arith) in
                  let (drained, closed) = taken_contents R p s.bridge.rx_ring max_send free in
                  let left = ap (λ b. length (contents b.rx_ring)) kept ∙ ap length drained in
                  let free' = ap (λ b. pending b.rx_ring) kept ∙ closed in
                  let (t, f, empty) = write_loop_total fuel settles scratch' u mtu free' (
                    omega (
                      arith,
                      left,
                      length-drop (length chunk) (contents s.bridge.rx_ring),
                      claim_le_contents R p s.bridge.rx_ring max_send free,
                      some_claimed max_send full limits.0,
                      ap (λ k. k * (bound + 1)) (hooks_forward chunk scratch).0.2,
                    )) in
                  (
                    t,
                    bind-some (send_claimed R p host fuel chunk max_send scratch claimed) _ u e ∙ f,
                    empty,
                  ))))
    where
      some_claimed :
          (n : ℕ)
          → R.is_empty s.bridge.rx_ring ≡ false
          → 0 < n
          → 0 < length (claim s.bridge.rx_ring n).0
      some_claimed n full pos_n =
          claim_some s.bridge.rx_ring n free
            (λ c. cc (full, (is_empty_iff s.bridge.rx_ring free).1 c)) pos_n

  -- When shortages of buffers end (at most `bound` retries in a row) and no claim is open, every round of the writer
  -- thread ends, whatever the link and the errors, and leaves the receive ring empty: nothing waits
  -- for a wake-up that has been used. Fuel for each byte held, and for one hook output with all its
  -- retries, is enough.
  pub write_round_total :
      (fuel : ℕ) (settles : Settles host bound) (scratch : List ℕ) (s : Device Ring)
      → ((tr : Calls) → host.att_mtu tr < 2 ^ 16)
      → pending s.bridge.rx_ring ≡ 0
      → length (contents s.bridge.rx_ring) + length scratch * (bound + 1) + bound + 1 < fuel
      → (t : Device Ring) × (ble_write_round R p host fuel scratch s ≡ some t)
        × (contents t.bridge.rx_ring ≡ [])
  unfolding ble_write_round
  write_round_total fuel settles scratch s mtu free enough =
      let woken : Device Ring = record s { bridge = record s.bridge { rx_ready = false } } in
      let (t, e, empty) = write_loop_total fuel settles scratch woken mtu free enough in
      (
        record t { bridge = (uart_bridge_log_drops_if_due p t.bridge).1 },
        bind-some (write_loop R p host fuel scratch woken) _ t e,
        ap contents (report-ring t.bridge) ∙ empty,
      )
