-- ===== src/Device/Writer.antt =====
-- From the UART to the phone: `send_processed` and `ble_write_thread`.
use nrf_proxy.Base.{
  ℕ, zero, suc, ◌+◌, ◌-◌, false, not, Option, none, some, List, ◌==◌, if◌then◌else◌, ◌>>=◌, take,
  drop, length,
}
use nrf_proxy.Platform.{Platform}
use nrf_proxy.RingBuf.{RingBuf}
use nrf_proxy.Core.Link.{LinkState, proxy_may_forward}
use nrf_proxy.Core.Hooks.{on_uart_rx}
use nrf_proxy.Core.Send.{Verdict, proxy_next_slice, proxy_send_result, proxy_nus_chunk_limit}
use nrf_proxy.Bridge.Api.{
  uart_bridge_rx_is_empty, uart_bridge_rx_claim, uart_bridge_rx_finish, uart_bridge_rx_drain,
}
use nrf_proxy.Bridge.Report.{uart_bridge_log_drops_if_due}
use nrf_proxy.Device.State.{Host, Device}
use nrf_proxy.Device.Received.{nus_send}

module _ {Ring : Type 0} (host : Host) where
  -- The loop of `send_processed` with the count sent so far; `none` when the fuel runs out. The
  -- input is the hook's output, of `out_len` bytes.
  unfoldable pub send_loop : ℕ → List ℕ → ℕ → ℕ → Device Ring → Option (Device Ring)
  send_loop zero input sent max_send s = none
  send_loop (suc fuel) input sent max_send s =
      let slice = proxy_next_slice (length input) sent max_send in
      let bytes = take slice (drop sent input) in
      let t = (nus_send host bytes s).1 in
      let onward = send_loop fuel input (sent + slice) max_send t in
      let again = send_loop fuel input sent max_send t in
      if slice == 0 then some s else elim (proxy_send_result (nus_send host bytes s).0) [
        | Verdict.consumed ↦ onward
        | Verdict.retry ↦ again
        | Verdict.dropped ↦ some t
      ]

  unfoldable pub send_processed : ℕ → List ℕ → ℕ → Device Ring → Option (Device Ring)
  send_processed fuel input max_send s = send_loop fuel input 0 max_send s

module _ (R : RingBuf) (p : Platform) (host : Host) where
  open R use {Ring}

  abbrev pub forward_snapshot : Device Ring → LinkState
  forward_snapshot s = record {
    connected = s.current_conn;
    adv_active = false;
    link_secure = s.link_secure;
    locked_mode = false;
  }

  abbrev pub with_bridge :
      {A : Type 0} → A × nrf_proxy.Bridge.State.Bridge Ring → Device Ring → Device Ring
  with_bridge r s = record s { bridge = r.1 }

  -- One claimed chunk, not empty: the hook, the end of the claim, the send, the end of the
  -- reference.
  unfoldable pub send_claimed : ℕ → List ℕ → ℕ → List ℕ → Device Ring → Option (Device Ring)
  send_claimed fuel chunk max_send scratch s = do
    let (out_len, out) = on_uart_rx chunk scratch
    let finished = with_bridge (uart_bridge_rx_finish R p (length chunk) s.bridge) s
    t ← send_processed host fuel (take out_len out) max_send finished
    some (record t { conn_refs = t.conn_refs - 1 })

  -- The inner loop; `none` when the fuel runs out.
  unfoldable pub write_loop : ℕ → List ℕ → Device Ring → Option (Device Ring)
  write_loop zero scratch s = none
  write_loop (suc fuel) scratch s =
      let max_send = proxy_nus_chunk_limit (host.att_mtu s.calls) in
      let (chunk, bridge) = uart_bridge_rx_claim R p max_send s.bridge in
      let claimed : Device Ring = record s { conn_refs = s.conn_refs + 1; bridge = bridge } in
      let onward =
        send_claimed fuel chunk max_send scratch claimed
        >>= write_loop fuel (on_uart_rx chunk scratch).1 in
      if (uart_bridge_rx_is_empty R p s.bridge).0
      then some s
      else if not (proxy_may_forward (forward_snapshot s))
      then (do bridge ← uart_bridge_rx_drain R p fuel s.bridge; some (record s { bridge = bridge }))
      else if length chunk == 0
      then some (record claimed { conn_refs = claimed.conn_refs - 1 })
      else onward

  -- One round of the thread, once the semaphore has been given.
  unfoldable pub ble_write_round : ℕ → List ℕ → Device Ring → Option (Device Ring)
  ble_write_round fuel scratch s = do
    t ← write_loop fuel scratch (record s { bridge = record s.bridge { rx_ready = false } })
    some (with_bridge (uart_bridge_log_drops_if_due p t.bridge) t)
