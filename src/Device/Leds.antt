-- ===== src/Device/Leds.antt =====
-- The status LEDs: `leds_init`, `set_status_leds` and `adv_blink_handler`.
use nrf_proxy.Base.{ℕ, Bool, true, false, not, if◌then◌else◌}
use nrf_proxy.Platform.{ready, cancelled, rescheduled}
use nrf_proxy.Device.State.{Board, Device, Status, shared}

abbrev pub adv_blink_on_ms : ℕ
adv_blink_on_ms = 30

abbrev pub adv_blink_off_fast_ms : ℕ
adv_blink_off_fast_ms = 300

abbrev pub adv_blink_off_slow_ms : ℕ
adv_blink_off_slow_ms = 2000

module _ {Ring : Type 0} (board : Board) where
  -- `gpio_pin_set_dt` on the LED of a role, if the board has it; the level is that of every role
  -- which has the pin.
  unfoldable pub set_led : Status → Bool → Device Ring → Device Ring
  set_led Status.connected level s = record s {
    connected_led = if board.connected_port then level else s.connected_led;
    advertising_led = if shared board then level else s.advertising_led;
  }
  set_led Status.advertising level s = record s {
    connected_led = if shared board then level else s.connected_led;
    advertising_led = if board.advertising_port then level else s.advertising_led;
  }
  set_led Status.error level s = record s {
    error_led = if board.error_port then level else s.error_led;
  }

  -- The loop over the roles.
  abbrev pub all_off : Device Ring → Device Ring
  all_off s =
      set_led Status.error false
        (set_led Status.advertising false (set_led Status.connected false s))

  -- `gpio_pin_configure_dt` as an inactive output drives the pin low; a pin that is not ready is
  -- passed over.
  abbrev configure : Bool → Status → Device Ring → Device Ring
  configure is_ready state s = if is_ready then set_led state false s else s

  unfoldable pub leds_init : Device Ring → Device Ring
  leds_init s =
      let connected =
        configure board.connected_ready Status.connected (record s { adv_blink_work = ready }) in
      configure board.error_ready Status.error
        (configure board.advertising_ready Status.advertising connected)

  unfoldable pub set_status_leds : Status → Device Ring → Device Ring
  set_status_leds state s =
      let off = all_off (record s { current_status = state }) in
      elim state [
        | Status.advertising ↦ record off { adv_blink_on = false; adv_blink_work = rescheduled 0 }
        | other ↦ set_led other true (record off { adv_blink_work = cancelled })
      ]

  unfoldable pub adv_blink_handler : Device Ring → Device Ring
  adv_blink_handler s = elim s.current_status [
    | Status.advertising ↦ if not board.advertising_port then s else record s {
      adv_blink_on = not s.adv_blink_on;
      connected_led = if shared board then not s.adv_blink_on else s.connected_led;
      advertising_led = not s.adv_blink_on;
      adv_blink_work = rescheduled (
          if not s.adv_blink_on
          then adv_blink_on_ms
          else if s.adv_slow_phase
          then adv_blink_off_slow_ms
          else adv_blink_off_fast_ms);
    }
    | _ ↦ s
  ]
