-- ===== src/Device/Wiping.antt =====
-- What the bond-reset button, held through the boot, leaves of the pairing lock.
use nrf_proxy.Base.{
  ℕ, zero, suc, ◌%◌, ◌≡◌, refl, sym, subst, Bool, true, false, not, ◌&&◌, some, [], ◌∷◌, ◌==◌,
  if◌then◌else◌, arith, if_both, ◌≤◌, ◌<◌, length, All,
}
use nrf_proxy.Base.Int.{ℤ, pos, ◌==ℤ◌}
use nrf_proxy.Platform.{Platform}
use nrf_proxy.RingBuf.{RingBuf}
use nrf_proxy.Core.Link.{proxy_should_start_adv}
use nrf_proxy.Core.Identity.{proxy_identity_derive}
use nrf_proxy.Bridge.Api.{uart_bridge_init}
use nrf_proxy.Device.State.{Board, Host, HostCall, Calls, Device, Status, log_host}
use nrf_proxy.Device.Leds.{set_led, leds_init, set_status_leds}
use nrf_proxy.Device.Relay.{relay_init}
use nrf_proxy.Device.Advertising.{advertising_start}
use nrf_proxy.Device.Link.{refresh_locked_mode}
use nrf_proxy.Device.Boot.{
  hold_loop, bond_reset_requested, identity_init, name_and_advertise, bring_up, works_ready, strlen,
  main,
}
use nrf_proxy.Device.Button.{held_for, bond_reset_needs_hold}
use nrf_proxy.Core.Identity.Derive.{IsSized}
use nrf_proxy.Device.Booting.{main_returns}
use nrf_proxy.Device.Writing.{Leaves, Leaves-bind, Leaves-trivial}

-- `bt_unpair` of every address leaves the host without a bond.
abbrev pub Unpairs : Host → Type 0
Unpairs host = (tr : Calls) → host.bonds (HostCall.unpair (host.unpair_err tr) ∷ tr) ≡ []

-- Anyone may connect: not locked, and no address listed.
abbrev pub IsOpen : {Ring : Type 0} → Device Ring → Type 0
IsOpen s = (s.locked_mode ≡ false) × (s.accept_list ≡ [])

module _ {Ring : Type 0} (board : Board) (host : Host) where
  set_up-IsOpen :
      (s : Device Ring)
      → IsOpen s
      → IsOpen (works_ready board (relay_init board (leds_init board s)))
  unfolding relay_init leds_init set_led
  set_up-IsOpen s v = ground arith

  hold_loop-IsOpen :
      (pressed : ℕ → Bool) (n i : ℕ) (s : Device Ring)
      → IsOpen s
      → IsOpen (hold_loop board pressed n i s).1
  unfolding hold_loop set_led
  hold_loop-IsOpen pressed zero i s v = ground arith
  hold_loop-IsOpen pressed (suc n) i s v =
      let rest =
        hold_loop-IsOpen pressed n (suc i) (set_led board Status.advertising (i % 2 == 1) s)
          (ground arith) in
      ground arith

  button-IsOpen :
      (at_boot : Bool) (pressed : ℕ → Bool) (s : Device Ring)
      → IsOpen s
      → IsOpen (bond_reset_requested board at_boot pressed s).1
  unfolding bond_reset_requested
  button-IsOpen at_boot pressed s v = let held = hold_loop-IsOpen pressed 30 0 s v in ground arith

  status-IsOpen :
      (state : Status) (s : Device Ring) → IsOpen s → IsOpen (set_status_leds board state s)
  unfolding set_status_leds set_led
  status-IsOpen state s v = ground arith

  started-IsOpen : (s : Device Ring) → IsOpen s → IsOpen (advertising_start board host s)
  unfolding advertising_start proxy_should_start_adv set_status_leds set_led
  started-IsOpen s v = ground arith

  refreshed-IsOpen :
      (s : Device Ring)
      → s.accept_list ≡ []
      → host.bonds s.calls ≡ []
      → IsOpen (refresh_locked_mode board host s)
  unfolding refresh_locked_mode
  refreshed-IsOpen s empty none_left = rw none_left (refl, ground (arith, empty))

  identity-IsOpen : (s : Device Ring) → IsOpen s → Leaves IsOpen (identity_init board host s)
  unfolding identity_init
  identity-IsOpen s v =
      Leaves-bind (λ _. Unit) IsOpen
        (proxy_identity_derive board.device_name (some host.id_bytes) host.id_len s.identity) _
        (Leaves-trivial
          (proxy_identity_derive board.device_name (some host.id_bytes) host.id_len s.identity))
        (λ i _. if_both IsOpen (not i.addr_valid) (record s { identity = i }) _ (λ _. v) (λ _. v))

module _ (R : RingBuf) (p : Platform) (board : Board) (host : Host) (wipes : Unpairs host) where
  open R use {Ring}

  named-IsOpen : (s : Device Ring) → IsOpen s → IsOpen (name_and_advertise R p board host true s)
  unfolding name_and_advertise
  named-IsOpen s v =
      if_both IsOpen (not (nus_err ==ℤ pos 0)) (set_status_leds board Status.error up)
        (advertising_start board host (refresh_locked_mode board host wiped))
        (λ _. status-IsOpen board host Status.error up v)
        (λ _. started-IsOpen board host _ (refreshed-IsOpen board host wiped v.1 (wipes up.calls)))
    where
      named : Device Ring
      named = record (log_host (HostCall.set_name s.identity.name (host.set_name_err s.calls)) s) {
        name_len = strlen s.identity.name;
      }

      nus_err : ℤ
      nus_err = host.nus_init_err named.calls

      up : Device Ring
      up = log_host (HostCall.nus_init nus_err) named

      wiped : Device Ring
      wiped = log_host (HostCall.unpair (host.unpair_err up.calls)) up

  bring_up-IsOpen : (s : Device Ring) → IsOpen s → IsOpen (bring_up R p board host true s)
  unfolding bring_up
  bring_up-IsOpen s v =
      if_both IsOpen (not (host.enable_err s.calls ==ℤ pos 0))
        (set_status_leds board Status.error enabled)
        (name_and_advertise R p board host true
          (if board.settings then log_host HostCall.load enabled else enabled))
        (λ _. status-IsOpen board host Status.error enabled v)
        (λ _. named-IsOpen _ (
          if_both IsOpen board.settings (log_host HostCall.load enabled) enabled (λ _. v) (λ _. v)))
    where
      enabled : Device Ring
      enabled = log_host (HostCall.enable (host.enable_err s.calls)) s

  main-IsOpen :
      (pressed : ℕ → Bool) (s t : Device Ring)
      → IsOpen s
      → (board.button_port && board.button_ready && held_for pressed 30 0) ≡ true
      → main R p board host true pressed s ≡ some t
      → IsOpen t
  unfolding main
  main-IsOpen pressed s t v held e = subst (Leaves IsOpen) e (
      if_both (Leaves IsOpen) (not ((uart_bridge_init R p button.1.bridge).0 ==ℤ pos 0))
        (some (set_status_leds board Status.error u)) _
        (λ _. status-IsOpen board host Status.error u u_open)
        (λ _.
          Leaves-bind IsOpen IsOpen (identity_init board host u) _
            (identity-IsOpen board host u u_open)
            (λ w o.
              subst (λ b. IsOpen (bring_up R p board host b w)) (sym pushed)
                (bring_up-IsOpen w o))))
    where
      start : Device Ring
      start = works_ready board (relay_init board (leds_init board s))

      button : Bool × Device Ring
      button = bond_reset_requested board true pressed start

      pushed : button.0 ≡ true
      pushed = ground (arith, bond_reset_needs_hold board true pressed start, held)

      u : Device Ring
      u = record button.1 { bridge = (uart_bridge_init R p button.1.bridge).1 }

      u_open : IsOpen u
      u_open = button-IsOpen board host true pressed start (set_up-IsOpen board host s v)

  -- The button, held through the boot, opens the device: if the statics are as the linker leaves
  -- them, the board has a working button, it is down at boot and at each of the 30 polls, and
  -- `bt_unpair` leaves no bond, then however the rest of the boot goes `main` returns, with the
  -- device not locked and its accept list empty. The buffer of the hardware ID has at least the six
  -- bytes that the derivation reads.
  pub held_button_opens :
      (pressed : ℕ → Bool) (s : Device Ring)
      → IsOpen s
      → (board.button_port && board.button_ready && held_for pressed 30 0) ≡ true
      → IsSized s.identity
      → 6 ≤ length host.id_bytes
      → All (λ b. b < 256) host.id_bytes
      → (t : Device Ring) × (main R p board host true pressed s ≡ some t) × IsOpen t
  held_button_opens pressed s v held sized len bytes =
      let (t, e) = main_returns R p board host true pressed s sized len bytes in
      (t, e, main-IsOpen pressed s t v held e)
