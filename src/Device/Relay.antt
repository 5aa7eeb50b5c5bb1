-- ===== src/Device/Relay.antt =====
-- The relay: `relay_apply`, `relay_set`, the grace window and `relay_init`.
use nrf_proxy.Base.{ℕ, Bool, false, not, ◌&&◌, if◌then◌else◌}
use nrf_proxy.Platform.{cancelled, rescheduled}
use nrf_proxy.Device.State.{Board, Device}

abbrev pub relay_grace_ms : ℕ
relay_grace_ms = 60000

module _ {Ring : Type 0} (board : Board) where
  unfoldable pub relay_apply : Bool → Device Ring → Device Ring
  relay_apply enable s =
      if not board.relay_port then s else record s { relay_pin = enable; relay_enabled = enable }

  unfoldable pub relay_set : Bool → Device Ring → Device Ring
  relay_set enable s = relay_apply enable (record s { relay_grace_work = cancelled })

  unfoldable pub relay_grace_handler : Device Ring → Device Ring
  relay_grace_handler s =
      let back = s.current_conn && s.link_secure in
      if not back && s.relay_enabled then relay_apply false s else s

  unfoldable pub relay_grace_start : Device Ring → Device Ring
  relay_grace_start s =
      if not s.relay_enabled then s else record s { relay_grace_work = rescheduled relay_grace_ms }

  unfoldable pub relay_init : Device Ring → Device Ring
  relay_init s =
      let off : Device Ring = record s { relay_enabled = false } in
      if not board.relay_port
      then off
      else if not board.relay_ready
      then off
      else record off { relay_pin = false }
