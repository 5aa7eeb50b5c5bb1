-- ===== src/Device/Thread.antt =====
-- `ble_write_thread` one action at a time, so that anything may happen between two of them: each
-- step is one use of what the thread shares with interrupts, timers and the Bluetooth host.
use nrf_proxy.Base.{ℕ, ◌+◌, ◌-◌, false, List, ◌==◌, if◌then◌else◌, take, drop, length}
use nrf_proxy.Platform.{Platform}
use nrf_proxy.RingBuf.{RingBuf}
use nrf_proxy.Core.Link.{proxy_may_forward}
use nrf_proxy.Core.Hooks.{on_uart_rx}
use nrf_proxy.Core.Send.{Verdict, proxy_next_slice, proxy_send_result, proxy_nus_chunk_limit}
use nrf_proxy.Bridge.Api.{
  uart_bridge_rx_is_empty, uart_bridge_rx_claim, uart_bridge_rx_finish, uint32_max,
}
use nrf_proxy.Bridge.Report.{uart_bridge_log_drops_if_due}
use nrf_proxy.Device.Phase.{Phase}
use nrf_proxy.Device.State.{Host, Device}
use nrf_proxy.Device.Received.{nus_send}
use nrf_proxy.Device.Writer.{forward_snapshot, with_bridge}

module _ (R : RingBuf) (p : Platform) (host : Host) where
  open R use {Ring}

  abbrev pub at : Phase → Device Ring → Device Ring
  at phase s = record s { writer = phase }

  -- `k_sem_take`: the thread goes on only once the semaphore has been given, and takes it.
  unfoldable pub wait_step : Device Ring → Device Ring
  wait_step s =
      if s.bridge.rx_ready
      then record s { bridge = record s.bridge { rx_ready = false }; writer = Phase.checking }
      else s

  unfoldable pub check_step : Device Ring → Device Ring
  check_step s =
      if (uart_bridge_rx_is_empty R p s.bridge).0 then at Phase.reporting s else at Phase.gating s

  -- The section under `conn_mutex`.
  unfoldable pub gate_step : Device Ring → Device Ring
  gate_step s =
      if proxy_may_forward (forward_snapshot R p host s)
      then record s { conn_refs = s.conn_refs + 1; writer = Phase.claiming }
      else at Phase.draining s

  -- A turn of `uart_bridge_rx_drain`: the claim, and its finish.
  unfoldable pub drain_step : Device Ring → Device Ring
  drain_step s =
      let (bytes, bridge) = uart_bridge_rx_claim R p (uint32_max R p) s.bridge in
      let phase : Phase =
        if length bytes == 0 then Phase.reporting else Phase.drained (length bytes) in
      record s { bridge = bridge; writer = phase }

  unfoldable pub drained_step : ℕ → Device Ring → Device Ring
  drained_step n s =
      at Phase.draining (with_bridge R p host (uart_bridge_rx_finish R p n s.bridge) s)

  -- The claim of the bytes to send; when there are none, the reference is given back.
  unfoldable pub claim_step : Device Ring → Device Ring
  claim_step s =
      let max_send = proxy_nus_chunk_limit (host.att_mtu s.calls) in
      let (chunk, bridge) = uart_bridge_rx_claim R p max_send s.bridge in
      if length chunk == 0
      then record s { bridge = bridge; conn_refs = s.conn_refs - 1; writer = Phase.reporting }
      else record s { bridge = bridge; writer = Phase.hooking chunk max_send }

  -- The hook into `proc_buf`, and the end of the claim.
  unfoldable pub hook_step : List ℕ → ℕ → Device Ring → Device Ring
  hook_step chunk max_send s =
      let (out_len, out) = on_uart_rx chunk s.writer_buf in
      record s {
        bridge = (uart_bridge_rx_finish R p (length chunk) s.bridge).1;
        writer = Phase.sending (take out_len out) 0 max_send;
        writer_buf = out;
      }

  -- A turn of the loop of `send_processed`.
  unfoldable pub send_step : List ℕ → ℕ → ℕ → Device Ring → Device Ring
  send_step input sent max_send s =
      let slice = proxy_next_slice (length input) sent max_send in
      let bytes = take slice (drop sent input) in
      let t = (nus_send host bytes s).1 in
      if slice == 0
      then at Phase.releasing s
      else elim (proxy_send_result (nus_send host bytes s).0) [
        | Verdict.consumed ↦ at (Phase.sending input (sent + slice) max_send) t
        | Verdict.retry ↦ t
        | Verdict.dropped ↦ at Phase.releasing t
      ]

  unfoldable pub release_step : Device Ring → Device Ring
  release_step s = record s { conn_refs = s.conn_refs - 1; writer = Phase.checking }

  unfoldable pub report_step : Device Ring → Device Ring
  report_step s =
      at Phase.waiting (with_bridge R p host (uart_bridge_log_drops_if_due p s.bridge) s)

  unfoldable pub phase_step : Phase → Device Ring → Device Ring
  phase_step Phase.waiting s = wait_step s
  phase_step Phase.checking s = check_step s
  phase_step Phase.gating s = gate_step s
  phase_step Phase.draining s = drain_step s
  phase_step (Phase.drained n) s = drained_step n s
  phase_step Phase.claiming s = claim_step s
  phase_step (Phase.hooking chunk max_send) s = hook_step chunk max_send s
  phase_step (Phase.sending input sent max_send) s = send_step input sent max_send s
  phase_step Phase.releasing s = release_step s
  phase_step Phase.reporting s = report_step s

  unfoldable pub writer_step : Device Ring → Device Ring
  writer_step s = phase_step s.writer s
