-- ===== src/Device/Received.antt =====
-- From the phone: `nus_received` and the acknowledgement `cmd_ack_send`.
use nrf_proxy.Base.{
  ℕ, zero, suc, true, false, not, Option, some, List, ◌==◌, ◌>>=◌, if◌then◌else◌, take,
}
use nrf_proxy.Base.Int.{ℤ, pos, ◌==ℤ◌}
use nrf_proxy.Platform.{Platform}
use nrf_proxy.RingBuf.{RingBuf}
use nrf_proxy.Core.Command.{Kind, Cmd, proxy_cmd_parse}
use nrf_proxy.Core.Hooks.{on_ble_rx}
use nrf_proxy.Core.Send.{Verdict, proxy_send_result}
use nrf_proxy.Bridge.Api.{Arrivals, uart_bridge_set_baud, uart_bridge_send}
use nrf_proxy.Device.State.{HostCall, Host, Board, Device, log_host}
use nrf_proxy.Device.Relay.{relay_set}

module _ {Ring : Type 0} (host : Host) where
  -- `bt_nus_send`: the error code.
  abbrev pub nus_send : List ℕ → Device Ring → ℤ × Device Ring
  nus_send bytes s =
      let err = host.nus_send_err s.calls bytes in (err, log_host (HostCall.nus_send bytes err) s)

  -- The loop of `cmd_ack_send`, with the tries left.
  unfoldable pub ack_loop : ℕ → List ℕ → Device Ring → Device Ring
  ack_loop zero ack s = s
  ack_loop (suc tries) ack s =
      let t = (nus_send ack s).1 in
      let rest = ack_loop tries ack t in
      elim (proxy_send_result (nus_send ack s).0) [ Verdict.retry ↦ rest | _ ↦ t ]

  unfoldable pub cmd_ack_send : List ℕ → Device Ring → Device Ring
  cmd_ack_send ack s = ack_loop 5 ack s

module _ (R : RingBuf) (p : Platform) (board : Board) (host : Host) where
  open R use {Ring}

  -- The forward path: the hook's output, in a scratch buffer that held `scratch`, goes to the UART.
  unfoldable pub forward : List ℕ → List ℕ → Device Ring → Device Ring
  forward input scratch s =
      let (n, out) = on_ble_rx input scratch in
      if n == 0 then s else record s { bridge = (uart_bridge_send R p (take n out) s.bridge).1 }

  -- The case PROXY_CMD_SET_BAUD, with the driver's events while the rate changes.
  unfoldable pub change_baud : Cmd → Arrivals → Device Ring → Device Ring
  change_baud cmd arrivals s =
      let (err, bridge) = uart_bridge_set_baud R p cmd.baud arrivals s.bridge in
      let t : Device Ring = record s { bridge = bridge } in
      if err ==ℤ pos 0 then cmd_ack_send host (take cmd.ack_len cmd.ack) t else t

  -- The `switch` on the kind of command.
  unfoldable pub act_on : Kind → Cmd → List ℕ → List ℕ → Arrivals → Device Ring → Device Ring
  act_on Kind.none_cmd cmd input scratch arrivals s = forward input scratch s
  act_on Kind.relay_enable cmd input scratch arrivals s =
      cmd_ack_send host (take cmd.ack_len cmd.ack) (relay_set board true s)
  act_on Kind.relay_disable cmd input scratch arrivals s =
      cmd_ack_send host (take cmd.ack_len cmd.ack) (relay_set board false s)
  act_on Kind.set_baud cmd input scratch arrivals s = change_baud cmd arrivals s
  act_on Kind.invalid cmd input scratch arrivals s = s

  -- `none` is a read outside the packet. `cmd` and `scratch` are what the function's local and its
  -- static buffer held before.
  unfoldable pub nus_received :
      List ℕ → Cmd → List ℕ → Arrivals → Device Ring → Option (Device Ring)
  nus_received input cmd scratch arrivals s = if not s.link_secure then some s else (do
    (kind, parsed) ← proxy_cmd_parse input cmd
    some (act_on kind parsed input scratch arrivals s))
