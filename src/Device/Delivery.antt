-- ===== src/Device/Delivery.antt =====
-- What a round of the writer thread delivers to the phone on an encrypted link.
use nrf_proxy.Base.{
  ℕ, zero, suc, ◌+◌, ◌-◌, ◌*◌, ◌≤◌, ◌<◌, ◌^◌, ◌≡◌, refl, sym, ap, ◌∙◌, subst, true, false, not,
  some, List, [], ◌++◌, ◌==◌, ◌>>=◌, arith, take, drop, length, append-nil, if_both,
}
use nrf_proxy.Platform.{Platform}
use nrf_proxy.RingBuf.{RingBuf}
use nrf_proxy.Core.Hooks.{on_uart_rx, on_uart_rx_whole, hooks_forward}
use nrf_proxy.Core.Link.{proxy_may_forward}
use nrf_proxy.Core.Send.{proxy_nus_chunk_limit, chunk_limit_bounds}
use nrf_proxy.Bridge.Api.{
  uart_bridge_rx_is_empty, uart_bridge_rx_claim, uart_bridge_rx_finish, uart_bridge_rx_drain,
}
use nrf_proxy.Bridge.Drain.{taken_contents}
use nrf_proxy.Bridge.Keeps.{report-same}
use nrf_proxy.Device.State.{Host, Board, Device, Calls}
use nrf_proxy.Device.Writer.{
  send_loop, send_processed, send_claimed, write_loop, ble_write_round, forward_snapshot,
}
use nrf_proxy.Device.Sending.{delivered, Settles}
use nrf_proxy.Device.Lasting.{Lasting, Leaves-and, moved, drop_zero, send_loop-all}
use nrf_proxy.Device.Round.{send_loop-bridge, write_round_total}
use nrf_proxy.Device.Invariant.{Same}
use nrf_proxy.Device.Writing.{send_loop-Same, Leaves, Leaves-bind, Leaves-weaken}

module _ (R : RingBuf) (p : Platform) (board : Board) (host : Host) where
  open R use {
    Ring, contents, pending, claim, claim_bytes, claim_bound, claim_contents, claim_pending,
    is_empty_iff,
  }

  -- The bytes delivered, then those that the receive ring holds.
  abbrev stream : Device Ring → List ℕ
  stream s = delivered s.calls ++ contents s.bridge.rx_ring

  -- An encrypted link, with no claim open.
  abbrev pub IsFlowing : Device Ring → Type 0
  IsFlowing s = (s.current_conn ≡ true) × (s.link_secure ≡ true) × (pending s.bridge.rx_ring ≡ 0)

  send_claimed-all :
      (fuel : ℕ) (buf : List ℕ) (max_send refs : ℕ) (s : Device Ring)
      → Lasting host
      → 0 < max_send
      → max_send ≤ length buf
      → IsFlowing s
      → Leaves
          (λ u. (stream u ≡ stream s) × IsFlowing u)
          (send_claimed R p host fuel (claim s.bridge.rx_ring max_send).0 max_send buf (record s {
            conn_refs = refs;
            bridge = record s.bridge { rx_ring = (claim s.bridge.rx_ring max_send).1 };
          }))
  unfolding send_claimed send_processed uart_bridge_rx_finish
  send_claimed-all fuel buf max_send refs s lasting pos_max fits (up, sec, free) =
      let chunk = (claim s.bridge.rx_ring max_send).0 in
      let bound = claim_bound s.bridge.rx_ring max_send in
      let left = taken_contents R p s.bridge.rx_ring max_send free in
      let out = take (on_uart_rx chunk buf).0 (on_uart_rx chunk buf).1 in
      let whole : out ≡ chunk = on_uart_rx_whole chunk buf (omega arith) in
      let finished : Device Ring = record s {
        conn_refs = refs;
        bridge = record s.bridge {
          rx_ring = R.finish (claim s.bridge.rx_ring max_send).1 (length chunk);
        };
      } in
      let loop = send_loop host fuel out 0 max_send finished in
      Leaves-bind
        (λ t.
          (delivered t.calls ≡ delivered s.calls ++ drop 0 out)
          × ((t.bridge ≡ finished.bridge) × Same board finished t))
        (λ u. (stream u ≡ stream s) × IsFlowing u) loop _
        (Leaves-and _ _ loop (send_loop-all host fuel out 0 max_send finished lasting pos_max) (
          Leaves-and _ _ loop (send_loop-bridge host fuel out 0 max_send finished)
            (send_loop-Same board host fuel out 0 max_send finished)))
        (λ t (sent, (kept, same)). (
          ap (λ b. delivered t.calls ++ contents b.rx_ring) kept
              ∙ ap (λ l. l ++ contents finished.bridge.rx_ring)
                  (sent ∙ ap (λ l. delivered s.calls ++ l) (drop_zero out ∙ whole))
              ∙ moved (delivered s.calls) (contents s.bridge.rx_ring) chunk _ (length chunk)
                  (claim_bytes s.bridge.rx_ring max_send free) left.0,
          (same.conn ∙ up, same.sec ∙ sec, ap (λ b. pending b.rx_ring) kept ∙ left.1),
        ))

  write_loop-all :
      (fuel : ℕ) (buf : List ℕ) (s : Device Ring)
      → Lasting host
      → ((tr : Calls) → host.att_mtu tr < 2 ^ 16)
      → ((tr : Calls) → proxy_nus_chunk_limit (host.att_mtu tr) ≤ length buf)
      → IsFlowing s
      → Leaves (λ t. stream t ≡ stream s) (write_loop R p host fuel buf s)
  unfolding write_loop uart_bridge_rx_claim proxy_may_forward
  write_loop-all zero buf s lasting mtu fits flows = tt
  write_loop-all (suc fuel) buf s lasting mtu fits flows =
      let (up, sec, free) = flows in
      let max_send = proxy_nus_chunk_limit (host.att_mtu s.calls) in
      let chunk = (claim s.bridge.rx_ring max_send).0 in
      let claimed : Device Ring = record s {
        conn_refs = s.conn_refs + 1;
        bridge = record s.bridge { rx_ring = (claim s.bridge.rx_ring max_send).1 };
      } in
      let buf' = (on_uart_rx chunk buf).1 in
      let P = Leaves (λ (t : Device Ring). stream t ≡ stream s) in
      if_both P ((uart_bridge_rx_is_empty R p s.bridge).0) (some s) _ (λ _. refl)
        (λ _.
          if_both P (not (proxy_may_forward (forward_snapshot R p host s)))
            (uart_bridge_rx_drain R p fuel s.bridge >>= (λ b. some (record s { bridge = b }))) _
            (λ shut. absurd (ground (arith, shut)))
            (λ _.
              if_both P (length chunk == 0)
                (some (record claimed { conn_refs = claimed.conn_refs - 1 }))
                (send_claimed R p host fuel chunk max_send buf claimed
                  >>= write_loop R p host fuel buf')
                (λ _. ap (λ l. delivered s.calls ++ l) (claim_contents s.bridge.rx_ring max_send))
                (λ _.
                  Leaves-bind (λ u. (stream u ≡ stream s) × IsFlowing u) (λ t. stream t ≡ stream s)
                    (send_claimed R p host fuel chunk max_send buf claimed)
                    (write_loop R p host fuel buf')
                    (send_claimed-all fuel buf max_send (s.conn_refs + 1) s lasting
                      (chunk_limit_bounds (host.att_mtu s.calls) (mtu s.calls)).0 (fits s.calls)
                      flows)
                    (λ u (e, flows').
                      Leaves-weaken (λ t. stream t ≡ stream u) (λ t. stream t ≡ stream s)
                        (write_loop R p host fuel buf' u) (λ t f. f ∙ e)
                        (write_loop-all fuel buf' u lasting mtu
                          (subst
                            (λ (k : ℕ). (tr : Calls) → proxy_nus_chunk_limit (host.att_mtu tr) ≤ k)
                            (sym (hooks_forward chunk buf).0.2) fits)
                          flows')))))

  round-stream :
      (fuel : ℕ) (buf : List ℕ) (s : Device Ring)
      → Lasting host
      → ((tr : Calls) → host.att_mtu tr < 2 ^ 16)
      → ((tr : Calls) → proxy_nus_chunk_limit (host.att_mtu tr) ≤ length buf)
      → IsFlowing s
      → Leaves (λ t. stream t ≡ stream s) (ble_write_round R p host fuel buf s)
  unfolding ble_write_round
  round-stream fuel buf s lasting mtu fits flows =
      let woken : Device Ring = record s { bridge = record s.bridge { rx_ready = false } } in
      Leaves-bind (λ t. stream t ≡ stream s) (λ t. stream t ≡ stream s)
        (write_loop R p host fuel buf woken) _
        (write_loop-all fuel buf woken lasting mtu fits flows)
        (λ t e. ap (λ r. delivered t.calls ++ contents r) (report-same R p t.bridge).2 ∙ e)

  -- On an encrypted link with no claim open, when shortages of buffers end, no send fails for good,
  -- and the limit of a notification fits `proc_buf`: a round of the writer thread gives a result,
  -- by then the phone was sent exactly the bytes that the receive ring held, in order, after those
  -- sent before, and the receive ring is empty.
  pub round_delivers :
      (bound fuel : ℕ) (settles : Settles host bound) (buf : List ℕ) (s : Device Ring)
      → Lasting host
      → ((tr : Calls) → host.att_mtu tr < 2 ^ 16)
      → ((tr : Calls) → proxy_nus_chunk_limit (host.att_mtu tr) ≤ length buf)
      → IsFlowing s
      → length (contents s.bridge.rx_ring) + length buf * (bound + 1) + bound + 1 < fuel
      → (t : Device Ring) × (ble_write_round R p host fuel buf s ≡ some t)
        × (delivered t.calls ≡ delivered s.calls ++ contents s.bridge.rx_ring)
        × (contents t.bridge.rx_ring ≡ [])
  round_delivers bound fuel settles buf s lasting mtu fits flows enough =
      let (t, e, empty) = write_round_total R p host bound fuel settles buf s mtu flows.2 enough in
      let kept =
        subst (Leaves (λ u. stream u ≡ stream s)) e
          (round-stream fuel buf s lasting mtu fits flows) in
      (
        t,
        e,
        sym (append-nil (delivered t.calls)) ∙ ap (λ l. delivered t.calls ++ l) (sym empty) ∙ kept,
        empty,
      )
