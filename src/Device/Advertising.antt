-- ===== src/Device/Advertising.antt =====
-- Advertising: the parameters, `advertising_start`, the retry and the switch to the slow interval.
use nrf_proxy.Base.{ℕ, true, false, not, ◌||◌, ◌∷◌, if◌then◌else◌}
use nrf_proxy.Base.Int.{pos, ◌==ℤ◌}
use nrf_proxy.Platform.{rescheduled}
use nrf_proxy.Core.Link.{LinkState, proxy_should_start_adv}
use nrf_proxy.Device.State.{AdvParam, HostCall, Host, Board, Device, Status, log_host}
use nrf_proxy.Device.Leds.{set_status_leds}

abbrev pub adv_fast_duration_ms : ℕ
adv_fast_duration_ms = 30000

abbrev pub adv_retry_delay_ms : ℕ
adv_retry_delay_ms = 1000

module _ {Ring : Type 0} where
  abbrev pub adv_params_fast : Device Ring → AdvParam
  adv_params_fast s = record { slow = false; filtered = s.locked_mode }

  abbrev pub adv_params_slow : Device Ring → AdvParam
  adv_params_slow s = record { slow = true; filtered = s.locked_mode }

  -- The snapshot of the link; its other two fields are zero there.
  abbrev pub snapshot : Device Ring → LinkState
  snapshot s = record {
    connected = s.current_conn;
    adv_active = s.adv_active;
    link_secure = false;
    locked_mode = false;
  }

module _ {Ring : Type 0} (board : Board) (host : Host) where
  unfoldable pub advertising_start : Device Ring → Device Ring
  advertising_start s =
      let err = host.adv_start_err s.calls (adv_params_fast s) in
      let tried : Device Ring = record s {
        calls = (HostCall.adv_start (adv_params_fast s) err) ∷ s.calls;
        adv_active = err ==ℤ pos 0;
      } in
      if not (proxy_should_start_adv (snapshot s))
      then s
      else if not (err ==ℤ pos 0)
      then record (set_status_leds board Status.error tried) {
        adv_retry_work = rescheduled adv_retry_delay_ms;
      }
      else record (set_status_leds board Status.advertising
          (record tried { adv_slow_phase = false })) {
            adv_slow_work = rescheduled adv_fast_duration_ms;
          }

  unfoldable pub adv_retry_handler : Device Ring → Device Ring
  adv_retry_handler s = advertising_start s

  -- What follows a slow start that failed, after the mutex was free for a moment.
  unfoldable pub slow_failed : Device Ring → Device Ring
  slow_failed s =
      if s.current_conn then s else record s { adv_retry_work = rescheduled adv_retry_delay_ms }

  -- `gap` is what the other threads do between the section that fails and the next one.
  unfoldable pub adv_slow_handler : (Device Ring → Device Ring) → Device Ring → Device Ring
  adv_slow_handler gap s =
      let stop_err = host.adv_stop_err s.calls in
      let stopped = log_host (HostCall.adv_stop stop_err) s in
      let start_err = host.adv_start_err stopped.calls (adv_params_slow s) in
      let restarted = log_host (HostCall.adv_start (adv_params_slow s) start_err) stopped in
      if s.current_conn || not s.adv_active
      then s
      else if not (stop_err ==ℤ pos 0)
      then record stopped { adv_slow_work = rescheduled adv_retry_delay_ms }
      else if not (start_err ==ℤ pos 0)
      then slow_failed (gap (record restarted { adv_active = false }))
      else record restarted { adv_slow_phase = true }
