-- ===== src/Device/Boot.antt =====
-- The boot: `bond_reset_requested`, `identity_init` and `main`.
use nrf_proxy.Base.{
  ℕ, zero, suc, ◌+◌, ◌%◌, Bool, true, false, not, Option, some, List, [], ◌∷◌, ◌++◌, ◌==◌,
  if◌then◌else◌, ◌>>=◌, take, drop, length,
}
use nrf_proxy.Base.Int.{pos, ◌==ℤ◌}
use nrf_proxy.Platform.{Platform, ready}
use nrf_proxy.RingBuf.{RingBuf}
use nrf_proxy.Core.Identity.{proxy_identity_derive}
use nrf_proxy.Bridge.Api.{uart_bridge_init}
use nrf_proxy.Device.State.{HostCall, Host, Board, Device, Status, log_host}
use nrf_proxy.Device.Leds.{set_led, leds_init, set_status_leds}
use nrf_proxy.Device.Relay.{relay_init}
use nrf_proxy.Device.Advertising.{advertising_start}
use nrf_proxy.Device.Link.{refresh_locked_mode}

abbrev pub mfg_id_offset : ℕ
mfg_id_offset = 4

abbrev pub bond_reset_polls : ℕ
bond_reset_polls = 30

module _ {Ring : Type 0} (board : Board) where
  -- The work items initialised before the button is read.
  abbrev pub works_ready : Device Ring → Device Ring
  works_ready s = record s {
    adv_slow_work = ready;
    adv_retry_work = ready;
    security_timeout_work = ready;
    relay_grace_work = ready;
  }

  -- The loop of `bond_reset_requested`: round `i` of `n` more reads the button as `pressed i`.
  unfoldable pub hold_loop : (ℕ → Bool) → ℕ → ℕ → Device Ring → Bool × Device Ring
  hold_loop pressed zero i s = (true, set_led board Status.advertising false s)
  hold_loop pressed (suc n) i s =
      let rest = hold_loop pressed n (suc i) (set_led board Status.advertising (i % 2 == 1) s) in
      if not (pressed i) then (false, set_led board Status.advertising false s) else rest

  -- `at_boot` is the first reading of the button.
  unfoldable pub bond_reset_requested : Bool → (ℕ → Bool) → Device Ring → Bool × Device Ring
  bond_reset_requested at_boot pressed s =
      if not board.button_port
      then (false, s)
      else if not board.button_ready
      then (false, s)
      else if not at_boot
      then (false, s)
      else hold_loop pressed bond_reset_polls 0 s

module _ {Ring : Type 0} (board : Board) (host : Host) where
  -- `none` is a read outside the hardware ID.
  unfoldable pub identity_init : Device Ring → Option (Device Ring)
  identity_init s = do
    identity ← proxy_identity_derive board.device_name (some host.id_bytes) host.id_len s.identity
    let named : Device Ring = record s { identity = identity }
    let err = host.id_create_err s.calls identity.addr
    let created = log_host (HostCall.id_create identity.addr err) named
    some (
        if not identity.addr_valid then named else record created {
          mfg_data =
              take mfg_id_offset created.mfg_data
              ++ identity.mfg_id
              ++ drop (mfg_id_offset + length identity.mfg_id) created.mfg_data;
        })

-- `strlen`
abbrev pub strlen : List ℕ → ℕ
strlen [] = 0
strlen (zero ∷ xs) = 0
strlen (suc c ∷ xs) = suc (strlen xs)

module _ (R : RingBuf) (p : Platform) (board : Board) (host : Host) where
  open R use {Ring}

  -- From the name on.
  unfoldable pub name_and_advertise : Bool → Device Ring → Device Ring
  name_and_advertise factory_reset s =
      let name_err = host.set_name_err s.calls in
      let named : Device Ring = record (log_host (HostCall.set_name s.identity.name name_err) s) {
        name_len = strlen s.identity.name;
      } in
      let nus_err = host.nus_init_err named.calls in
      let up = log_host (HostCall.nus_init nus_err) named in
      let wiped =
        if factory_reset then log_host (HostCall.unpair (host.unpair_err up.calls)) up else up in
      if not (nus_err ==ℤ pos 0)
      then set_status_leds board Status.error up
      else advertising_start board host (refresh_locked_mode board host wiped)

  -- From `bt_enable` on.
  unfoldable pub bring_up : Bool → Device Ring → Device Ring
  bring_up factory_reset s =
      let err = host.enable_err s.calls in
      let enabled = log_host (HostCall.enable err) s in
      let loaded = if board.settings then log_host HostCall.load enabled else enabled in
      if not (err ==ℤ pos 0)
      then set_status_leds board Status.error enabled
      else name_and_advertise factory_reset loaded

  unfoldable pub main : Bool → (ℕ → Bool) → Device Ring → Option (Device Ring)
  main at_boot pressed s =
      let (factory_reset, t) =
        bond_reset_requested board at_boot pressed
          (works_ready board (relay_init board (leds_init board s))) in
      let (err, bridge) = uart_bridge_init R p t.bridge in
      let u : Device Ring = record t { bridge = bridge } in
      if not (err ==ℤ pos 0)
      then some (set_status_leds board Status.error u)
      else (do v ← identity_init board host u; some (bring_up factory_reset v))
