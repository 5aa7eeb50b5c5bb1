-- ===== src/Device/Filter.antt =====
-- The filter of the advertiser against the locked mode.
pub mod Path
pub mod History
use nrf_proxy.Base.{
  ℕ, zero, suc, ◌≡◌, refl, sym, ap, ◌∙◌, ◌⊎◌, inl, inr, subst, Bool, true, false, not, List, [],
  ◌∷◌, some, ◌==◌, arith, if◌then◌else◌, ltb, length, take, if_both,
}
use nrf_proxy.Base.Int.{ℤ, pos, ◌==ℤ◌}
use nrf_proxy.Platform.{Platform, fired}
use nrf_proxy.RingBuf.{RingBuf}
use nrf_proxy.Core.Command.{Kind, Cmd}
use nrf_proxy.Core.Hooks.{on_ble_rx}
use nrf_proxy.Core.Link.{proxy_should_start_adv}
use nrf_proxy.Core.Send.{proxy_send_result}
use nrf_proxy.Bridge.Api.{Arrivals, uart_bridge_set_baud}
use nrf_proxy.Device.State.{AdvParam, HostCall, Calls, Host, Board, Device, log_host}
use nrf_proxy.Device.Leds.{set_led, set_status_leds, adv_blink_handler}
use nrf_proxy.Device.Relay.{relay_apply, relay_set, relay_grace_handler, relay_grace_start}
use nrf_proxy.Device.Advertising.{advertising_start, slow_failed, adv_slow_handler}
use nrf_proxy.Device.Link.{
  accept_bonds, clear_accept_list, refresh_locked_mode, ref_unsecured_conn,
  security_timeout_handler, pairing_complete, on_connected, on_disconnected,
}
use nrf_proxy.Device.Received.{
  nus_send, ack_loop, cmd_ack_send, forward, change_baud, act_on, nus_received,
}
use nrf_proxy.Device.Traffic.{retry_both, received-cases}
use nrf_proxy.Device.Phase.{
  Phase, waiting, checking, gating, draining, drained, claiming, hooking, sending, releasing,
  reporting,
}
use nrf_proxy.Device.Thread.{
  wait_step, check_step, gate_step, drain_step, drained_step, claim_step, hook_step, send_step,
  release_step, report_step, phase_step, writer_step,
}

-- Whether the advertiser started last lets only the accept list connect.
abbrev pub filtering : Calls → Bool
filtering [] = false
filtering (HostCall.adv_start param err ∷ tr) = param.filtered
filtering (_ ∷ tr) = filtering tr

module _ {Ring : Type 0} where
  -- An advertiser that is up is filtered exactly in the locked mode.
  abbrev pub IsGuarded : Device Ring → Type 0
  IsGuarded s = s.adv_active ≡ true → filtering s.calls ≡ s.locked_mode

module _ {Ring : Type 0} (board : Board) (host : Host) where
  pub on_connected-IsGuarded :
      (s : Device Ring) (err : ℕ) → IsGuarded (on_connected board host err s)
  unfolding on_connected set_status_leds set_led
  on_connected-IsGuarded s err = ground arith

  pub on_disconnected-IsGuarded :
      (s : Device Ring) → IsGuarded s → IsGuarded (on_disconnected board host s)
  unfolding on_disconnected relay_grace_start
  on_disconnected-IsGuarded s h = ground arith

  pub advertising_start-IsGuarded :
      (s : Device Ring) → IsGuarded s → IsGuarded (advertising_start board host s)
  unfolding advertising_start proxy_should_start_adv set_status_leds set_led
  advertising_start-IsGuarded s h = ground arith

  pub watchdog-IsGuarded :
      (s : Device Ring)
      → IsGuarded s
      → IsGuarded (security_timeout_handler board host (record s { security_timeout_work = fired }))
  unfolding security_timeout_handler ref_unsecured_conn
  watchdog-IsGuarded s h = ground arith

  pub grace-IsGuarded :
      (s : Device Ring)
      → IsGuarded s
      → IsGuarded (relay_grace_handler board (record s { relay_grace_work = fired }))
  unfolding relay_grace_handler relay_apply
  grace-IsGuarded s h = ground arith

  pub blink-IsGuarded :
      (s : Device Ring)
      → IsGuarded s
      → IsGuarded (adv_blink_handler board (record s { adv_blink_work = fired }))
  unfolding adv_blink_handler
  blink-IsGuarded s h = ground arith

  accept_bonds-active :
      (bonds : List ℕ) (s : Device Ring)
      → (accept_bonds board host bonds s).adv_active ≡ s.adv_active
  unfolding accept_bonds
  accept_bonds-active [] s = refl
  accept_bonds-active (addr ∷ bonds) s = accept_bonds-active bonds _ ∙ ground arith

  -- A pairing completes on a link that is up, where no advertiser runs.
  pub paired-IsGuarded :
      (s : Device Ring) (bonded : Bool)
      → s.adv_active ≡ false
      → IsGuarded (pairing_complete board host bonded s)
  unfolding pairing_complete refresh_locked_mode
  paired-IsGuarded s bonded silent =
      let same = accept_bonds-active (host.bonds s.calls) (clear_accept_list board host s) in
      ground arith

  failed-IsGuarded :
      (gap : Device Ring → Device Ring) (t : Device Ring)
      → IsGuarded (gap t)
      → IsGuarded (slow_failed board host (gap t))
  unfolding slow_failed
  failed-IsGuarded gap t h = ground arith

  pub slow-IsGuarded :
      (gap : Device Ring → Device Ring) (s : Device Ring)
      → ((t : Device Ring) → IsGuarded t → IsGuarded (gap t))
      → IsGuarded s
      → IsGuarded (adv_slow_handler board host gap (record s { adv_slow_work = fired }))
  unfolding adv_slow_handler
  slow-IsGuarded gap s keep h =
      let stop_err = host.adv_stop_err s.calls in
      let param : AdvParam = record { slow = true; filtered = s.locked_mode } in
      let stopped = HostCall.adv_stop stop_err ∷ s.calls in
      let start_err = host.adv_start_err stopped param in
      let failed : Device Ring = record s {
        adv_slow_work = fired;
        adv_active = false;
        calls = HostCall.adv_start param start_err ∷ stopped;
      } in
      let silent : IsGuarded failed = (λ up. cc) in
      let g = failed-IsGuarded gap failed (keep failed silent) in ground arith
