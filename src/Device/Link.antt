-- ===== src/Device/Link.antt =====
-- The pairing lock and the callbacks of the link.
use nrf_proxy.Base.{
  ℕ, ◌+◌, ◌-◌, Bool, true, false, not, ◌&&◌, List, [], ◌∷◌, ltb, leb, if◌then◌else◌, length,
}
use nrf_proxy.Base.Int.{pos, ◌==ℤ◌}
use nrf_proxy.Platform.{cancelled, rescheduled}
use nrf_proxy.Core.Link.{proxy_security_window_ms}
use nrf_proxy.Device.State.{HostCall, Host, Board, Device, Status, log_host, wake_writer}
use nrf_proxy.Device.Leds.{set_status_leds}
use nrf_proxy.Device.Relay.{relay_grace_start}
use nrf_proxy.Device.Advertising.{advertising_start}

-- BT_SECURITY_L2
abbrev pub security_l2 : ℕ
security_l2 = 2

module _ {Ring : Type 0} (board : Board) (host : Host) where
  -- `bond_accept_list_cb` for each bond visited; a failed add is only logged.
  unfoldable pub accept_bonds : List ℕ → Device Ring → Device Ring
  accept_bonds [] s = s
  accept_bonds (addr ∷ bonds) s =
      let err = host.accept_add_err s.calls addr in
      let added = log_host (HostCall.accept_add addr err) s in
      accept_bonds bonds
        (if err ==ℤ pos 0 then record added { accept_list = addr ∷ added.accept_list } else added)

  -- `bt_le_filter_accept_list_clear`, whose error the code ignores: a refused clear leaves the list.
  abbrev pub clear_accept_list : Device Ring → Device Ring
  clear_accept_list s =
      let err = host.accept_clear_err s.calls in
      log_host (HostCall.accept_clear err)
        (record s { accept_list = if err ==ℤ pos 0 then [] else s.accept_list })

  -- The bonds stay as they are over the call.
  unfoldable pub refresh_locked_mode : Device Ring → Device Ring
  refresh_locked_mode s =
      let bonds = host.bonds s.calls in
      let cleared = clear_accept_list s in
      let filled = if ltb 0 (length bonds) then accept_bonds bonds cleared else cleared in
      record filled { locked_mode = ltb 0 (length bonds) }

  -- The reference taken, if the link is up and not encrypted.
  unfoldable pub ref_unsecured_conn : Device Ring → Bool × Device Ring
  ref_unsecured_conn s =
      if s.current_conn && not s.link_secure
      then (true, record s { conn_refs = s.conn_refs + 1 })
      else (false, s)

  unfoldable pub security_timeout_handler : Device Ring → Device Ring
  security_timeout_handler s =
      let t = (ref_unsecured_conn s).1 in
      let dropped = log_host (HostCall.disconnect (host.disconnect_err t.calls)) t in
      if (ref_unsecured_conn s).0 then record dropped { conn_refs = dropped.conn_refs - 1 } else t

  -- What follows the section that sets `link_secure`: both timers are cancelled, and the writer is
  -- woken.
  unfoldable pub keep_owner : Device Ring → Device Ring
  keep_owner s =
      wake_writer (record s { security_timeout_work = cancelled; relay_grace_work = cancelled })

  -- `err` is the `bt_security_err`, 0 for success. `pause` is what the timers do between the section
  -- that sets `link_secure` and the cancellations.
  unfoldable pub on_security_changed :
      (Device Ring → Device Ring) → ℕ → ℕ → Device Ring → Device Ring
  on_security_changed pause level err s =
      if ltb 0 err
      then s
      else if leb security_l2 level
      then keep_owner (pause (record s { link_secure = true }))
      else s

  unfoldable pub pairing_complete : Bool → Device Ring → Device Ring
  pairing_complete bonded s = if not bonded then s else refresh_locked_mode s

  -- `err` is the HCI status, 0 for success.
  unfoldable pub on_connected : ℕ → Device Ring → Device Ring
  on_connected err s =
      let consumed : Device Ring = record s { adv_active = false } in
      let linked : Device Ring = record consumed {
        current_conn = true;
        conn_refs = s.conn_refs + 1;
        link_secure = false;
        calls = HostCall.link_up ∷ s.calls;
      } in
      if ltb 0 err
      then consumed
      else set_status_leds board Status.connected (record linked {
        adv_slow_work = cancelled;
        security_timeout_work = rescheduled (proxy_security_window_ms s.locked_mode);
      })

  unfoldable pub on_disconnected : Device Ring → Device Ring
  on_disconnected s =
      let held : Device Ring = record (relay_grace_start board s) {
        security_timeout_work = cancelled;
      } in
      let gone : Device Ring =
        if held.current_conn
        then record held { conn_refs = held.conn_refs - 1; current_conn = false }
        else held in
      wake_writer (record gone { link_secure = false })

  unfoldable pub on_recycled : Device Ring → Device Ring
  on_recycled s = advertising_start board host s
