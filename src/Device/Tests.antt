-- ===== src/Device/Tests.antt =====
-- The device on a concrete board, host and driver.
use nrf_proxy.Base.{
  All, ℕ, ◌+◌, ◌≡◌, refl, ◌⊎◌, inl, inr, true, false, ◌&&◌, some, [], ◌∷◌, ◌==◌, arith, replicate,
  if◌then◌else◌,
}
use nrf_proxy.Base.Int.{pos, ◌==ℤ◌}
use nrf_proxy.RingBuf.Fifo.{Fifo, fifo}
use nrf_proxy.Core.Command.Packets.{relay_packet, baud_packet}
use nrf_proxy.Bridge.Samples.{driver_calm, started}
use nrf_proxy.Bridge.Api.{uart_bridge_set_baud}
use nrf_proxy.Bridge.Baud.{rate}
use nrf_proxy.Bridge.Recovery.{armed}
use nrf_proxy.Core.Command.Table.{proxy_baud_supported_iff}
use nrf_proxy.Device.Phase.{Phase, writer_refs}
use nrf_proxy.Device.State.{Device}
use nrf_proxy.Device.Link.{on_connected, on_disconnected}
use nrf_proxy.Device.Received.{cmd_ack_send, nus_received}
use nrf_proxy.Device.Writer.{send_processed}
use nrf_proxy.Device.Boot.{bond_reset_requested}
use nrf_proxy.Device.Invariant.{IsReachable, dropping}
use nrf_proxy.Device.System.{World, Steps, stay, andthen, link_made, link_lost}
use nrf_proxy.Device.Safety.{IsSound}
use nrf_proxy.Device.Promises.{
  relay_needs_owner, always-IsReachable, unencrypted_is_watched, one_connection,
}
use nrf_proxy.Device.Sending.{Outcome, send_processed_total}
use nrf_proxy.Device.Round.{write_round_total}
use nrf_proxy.Core.Command.Table.{IsByte}
use nrf_proxy.Device.Forwarding.{command_never_forwarded}
use nrf_proxy.Bridge.Pipeline.{accepted}
use nrf_proxy.Device.Locking.{listed, only_bonded}
use nrf_proxy.Device.Link.{refresh_locked_mode}
use nrf_proxy.Device.Writer.{ble_write_round}
use nrf_proxy.Device.Commands.{IsAcked, ack_at_most_once, baud_echo_means_live}
use nrf_proxy.Device.Button.{held_for, bond_reset_needs_hold}
use nrf_proxy.Device.Samples.{
  board, host, reset, riding, riding-IsLinked, no_cmd, no_arrivals, settled,
}

bond_reset_needs_hold_example :
    (bond_reset_requested board true (λ i. i == 3) reset).0
    ≡ (true && true && true && held_for (λ i. i == 3) 30 0)
bond_reset_needs_hold_example = bond_reset_needs_hold board true (λ i. i == 3) reset

abbrev before : World Fifo
before = record { device = riding; recycling = false }

-- The link drops while the relay is on.
abbrev dropped_link : World Fifo
dropped_link = record { device = on_disconnected board host riding; recycling = true }

before-IsSound : IsSound fifo driver_calm board host before
before-IsSound = (riding-IsLinked, inl refl)

drop-Steps : Steps fifo driver_calm board host before dropped_link
drop-Steps = andthen before before dropped_link (stay before) (link_lost riding false)

relay_needs_owner_example :
    (dropped_link.device.current_conn ≡ true) × (dropped_link.device.link_secure ≡ true)
    ⊎ (armed dropped_link.device.relay_grace_work ≡ true)
relay_needs_owner_example =
    relay_needs_owner fifo driver_calm board host before dropped_link before-IsSound drop-Steps
      (unfold on_disconnected nrf_proxy.Device.Relay.relay_grace_start in refl)

always-IsReachable_example : IsReachable board true dropped_link.device
always-IsReachable_example =
    always-IsReachable fifo driver_calm board host before dropped_link before-IsSound drop-Steps

one_connection_example :
    (dropped_link.device.conn_refs
      ≡ (if dropped_link.device.current_conn then 1 else 0) + writer_refs Phase.waiting)
    × (dropped_link.device.link_secure ≡ true → dropped_link.device.current_conn ≡ true)
    × (dropped_link.device.current_conn ≡ true → dropped_link.device.adv_active ≡ false)
unfolding on_disconnected writer_refs nrf_proxy.Device.Relay.relay_grace_start
one_connection_example =
    one_connection fifo driver_calm board host before dropped_link before-IsSound drop-Steps

-- The owner comes back; the link is not encrypted at first.
abbrev linked_again : World Fifo
linked_again = record { device = on_connected board host 0 dropped_link.device; recycling = false }

back-Steps : Steps fifo driver_calm board host before linked_again
back-Steps = andthen before dropped_link linked_again drop-Steps (
    link_made (on_disconnected board host riding) true
      (unfold on_disconnected nrf_proxy.Device.Relay.relay_grace_start in refl))

unencrypted_is_watched_example :
    (armed linked_again.device.security_timeout_work ≡ true)
    ⊎ (dropping linked_again.device.calls ≡ true)
unencrypted_is_watched_example =
    unencrypted_is_watched fifo driver_calm board host before linked_again before-IsSound back-Steps
      (unfold on_connected nrf_proxy.Device.Leds.set_status_leds nrf_proxy.Device.Leds.set_led in
        refl)
      (unfold on_connected nrf_proxy.Device.Leds.set_status_leds nrf_proxy.Device.Leds.set_led in
        refl)

send_processed_total_example :
    (t : Device Fifo) × (send_processed host 4 (1 ∷ 2 ∷ 3 ∷ []) 2 riding ≡ some t)
    × Outcome (1 ∷ 2 ∷ 3 ∷ []) riding t
send_processed_total_example =
    send_processed_total host 0 4 settled (1 ∷ 2 ∷ 3 ∷ []) 2 riding (omega arith) (omega arith)

ack_at_most_once_example :
    IsAcked host (1 ∷ 2 ∷ []) 5 riding (cmd_ack_send host (1 ∷ 2 ∷ []) riding)
ack_at_most_once_example = ack_at_most_once host (1 ∷ 2 ∷ []) riding

baud_echo_means_live_example :
    let b = (uart_bridge_set_baud fifo driver_calm 9600 no_arrivals started).1 in
    let got =
      nus_received fifo driver_calm board host
        (baud_packet 9600)
        no_cmd
        (replicate 512 0)
        no_arrivals
        riding in
    (got ≡ some (record riding { bridge = b })) × (rate b.calls ≡ rate started.calls)
    ⊎ (got ≡ some (cmd_ack_send host (baud_packet 9600) (record riding { bridge = b })))
      × (rate b.calls ≡ some 9600)
baud_echo_means_live_example =
    baud_echo_means_live fifo driver_calm board host 9600 no_cmd (replicate 512 0) no_arrivals
      riding (omega arith) ((proxy_baud_supported_iff 9600).1 (inr (inl refl))) refl

write_round_total_example :
    (t : Device Fifo) × (ble_write_round fifo driver_calm host 600 (replicate 512 0) riding
      ≡ some t)
    × (t.bridge.rx_ring.held ≡ [])
write_round_total_example =
    write_round_total fifo driver_calm host 0 600 settled (replicate 512 0) riding
      (λ tr. omega arith) refl (omega arith)

only_bonded_example :
    let t = refresh_locked_mode board host riding in
    (t.locked_mode ≡ true)
    × (listed 7 t.accept_list ≡ true
        → (true ≡ true) ⊎ (true ≡ false) × (listed 7 riding.accept_list ≡ true))
    × (((u : Device Fifo) (addr : ℕ) → (host.accept_add_err u.calls addr ==ℤ pos 0) ≡ true)
        → true ≡ true
        → listed 7 t.accept_list ≡ true)
only_bonded_example = only_bonded board host 7 riding

relay_bytes : All IsByte (relay_packet 7)
relay_bytes = ground arith

command_never_forwarded_example :
    (t : Device Fifo) × (nus_received fifo driver_calm board host
        (relay_packet 7)
        no_cmd
        (replicate 512 0)
        no_arrivals
        riding
      ≡ some t)
    × (accepted t.bridge.calls ≡ accepted started.calls)
command_never_forwarded_example =
    command_never_forwarded fifo driver_calm board host (relay_packet 7) no_cmd (replicate 512 0)
      no_arrivals riding relay_bytes
      (record { size = refl; start = refl; declared = refl; check = refl })
