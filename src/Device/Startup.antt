-- ===== src/Device/Startup.antt =====
-- What `main` leaves of the bridge and the writer thread, which the histories start from.
pub mod Begin
use nrf_proxy.Base.{
  ℕ, zero, suc, ◌%◌, ◌≡◌, ◌⊎◌, inl, inr, ap, subst, Bool, true, not, some, List, [], ◌∷◌, ◌==◌,
  if◌then◌else◌, arith, if_both,
}
use nrf_proxy.Base.Int.{ℤ, pos, ◌==ℤ◌}
use nrf_proxy.Platform.{Platform}
use nrf_proxy.RingBuf.{RingBuf}
use nrf_proxy.Core.Link.{proxy_should_start_adv}
use nrf_proxy.Core.Identity.{proxy_identity_derive}
use nrf_proxy.Bridge.State.{Bridge}
use nrf_proxy.Bridge.Api.{uart_bridge_init}
use nrf_proxy.Device.State.{Board, Host, HostCall, Device, Status, log_host}
use nrf_proxy.Device.Leds.{set_led, leds_init, set_status_leds}
use nrf_proxy.Device.Relay.{relay_init}
use nrf_proxy.Device.Advertising.{advertising_start}
use nrf_proxy.Device.Link.{accept_bonds, clear_accept_list, refresh_locked_mode}
use nrf_proxy.Device.Boot.{
  hold_loop, bond_reset_requested, identity_init, name_and_advertise, bring_up, works_ready, strlen,
  main,
}
use nrf_proxy.Device.Aside.{sends}
use nrf_proxy.Device.Writing.{Leaves, Leaves-bind, Leaves-trivial}

-- The bridge, the writer and the notifications are as they were.
abbrev pub Spared : {Ring : Type 0} → Device Ring → Device Ring → Type 0
Spared s t = (t.bridge ≡ s.bridge) × (t.writer ≡ s.writer) × (sends t.calls ≡ sends s.calls)

module _ {Ring : Type 0} (board : Board) (host : Host) where
  set_up-Spared :
      (s : Device Ring) → Spared s (works_ready board (relay_init board (leds_init board s)))
  unfolding relay_init leds_init set_led
  set_up-Spared s = ground arith

  hold_loop-Spared :
      (pressed : ℕ → Bool) (n i : ℕ) (s t : Device Ring)
      → Spared s t
      → Spared s (hold_loop board pressed n i t).1
  unfolding hold_loop set_led
  hold_loop-Spared pressed zero i s t v = ground arith
  hold_loop-Spared pressed (suc n) i s t v =
      let rest =
        hold_loop-Spared pressed n (suc i) s (set_led board Status.advertising (i % 2 == 1) t)
          (ground arith) in
      ground arith

  button-Spared :
      (at_boot : Bool) (pressed : ℕ → Bool) (s t : Device Ring)
      → Spared s t
      → Spared s (bond_reset_requested board at_boot pressed t).1
  unfolding bond_reset_requested
  button-Spared at_boot pressed s t v =
      let held = hold_loop-Spared pressed 30 0 s t v in ground arith

  status-Spared :
      (state : Status) (s t : Device Ring) → Spared s t → Spared s (set_status_leds board state t)
  unfolding set_status_leds set_led
  status-Spared state s t v = ground arith

  started-Spared : (s t : Device Ring) → Spared s t → Spared s (advertising_start board host t)
  unfolding advertising_start proxy_should_start_adv set_status_leds set_led
  started-Spared s t v = ground arith

  accepted-Spared :
      (bonds : List ℕ) (s t : Device Ring) → Spared s t → Spared s (accept_bonds board host bonds t)
  unfolding accept_bonds
  accepted-Spared [] s t v = v
  accepted-Spared (addr ∷ bonds) s t v = accepted-Spared bonds s _ (ground arith)

  refreshed-Spared : (s t : Device Ring) → Spared s t → Spared s (refresh_locked_mode board host t)
  unfolding refresh_locked_mode
  refreshed-Spared s t v =
      let filled = accepted-Spared (host.bonds t.calls) s (clear_accept_list board host t) v in
      ground arith

  identity-Spared :
      (s t : Device Ring) → Spared s t → Leaves (Spared s) (identity_init board host t)
  unfolding identity_init
  identity-Spared s t v =
      Leaves-bind (λ _. Unit) (Spared s)
        (proxy_identity_derive board.device_name (some host.id_bytes) host.id_len t.identity) _
        (Leaves-trivial
          (proxy_identity_derive board.device_name (some host.id_bytes) host.id_len t.identity))
        (λ i _.
          if_both (Spared s) (not i.addr_valid) (record t { identity = i }) _ (λ _. v) (λ _. v))

module _ (R : RingBuf) (p : Platform) (board : Board) (host : Host) where
  open R use {Ring}

  named-Spared :
      (reset : Bool) (s t : Device Ring)
      → Spared s t
      → Spared s (name_and_advertise R p board host reset t)
  unfolding name_and_advertise
  named-Spared reset s t v =
      if_both (Spared s) (not (nus_err ==ℤ pos 0)) (set_status_leds board Status.error up)
        (advertising_start board host (refresh_locked_mode board host wiped))
        (λ _. status-Spared board host Status.error s up v)
        (λ _. started-Spared board host s _ (
          refreshed-Spared board host s wiped (
            if_both (Spared s) reset (log_host (HostCall.unpair (host.unpair_err up.calls)) up) up
              (λ _. v) (λ _. v))))
    where
      named : Device Ring
      named = record (log_host (HostCall.set_name t.identity.name (host.set_name_err t.calls)) t) {
        name_len = strlen t.identity.name;
      }

      nus_err : ℤ
      nus_err = host.nus_init_err named.calls

      up : Device Ring
      up = log_host (HostCall.nus_init nus_err) named

      wiped : Device Ring
      wiped = if reset then log_host (HostCall.unpair (host.unpair_err up.calls)) up else up

  bring_up-Spared :
      (reset : Bool) (s t : Device Ring) → Spared s t → Spared s (bring_up R p board host reset t)
  unfolding bring_up
  bring_up-Spared reset s t v =
      if_both (Spared s) (not (host.enable_err t.calls ==ℤ pos 0))
        (set_status_leds board Status.error enabled)
        (name_and_advertise R p board host reset
          (if board.settings then log_host HostCall.load enabled else enabled))
        (λ _. status-Spared board host Status.error s enabled v)
        (λ _. named-Spared reset s _ (
          if_both (Spared s) board.settings (log_host HostCall.load enabled) enabled (λ _. v)
            (λ _. v)))
    where
      enabled : Device Ring
      enabled = log_host (HostCall.enable (host.enable_err t.calls)) t

  -- After the boot: the bridge as `uart_bridge_init` left it, with success or the error status.
  abbrev pub Left : Device Ring → Device Ring → Type 0
  Left s t =
      Spared (record s { bridge = (uart_bridge_init R p s.bridge).1 }) t
      × ((((uart_bridge_init R p s.bridge).0 ==ℤ pos 0) ≡ true) ⊎ (t.current_status ≡ Status.error))

  error_shown :
      (s : Device Ring) → (set_status_leds board Status.error s).current_status ≡ Status.error
  unfolding set_status_leds set_led
  error_shown s = ground arith

  pub main-Left :
      (at_boot : Bool) (pressed : ℕ → Bool) (s t : Device Ring)
      → main R p board host at_boot pressed s ≡ some t
      → Left s t
  unfolding main
  main-Left at_boot pressed s t e = subst (Leaves (Left s)) e (
      if_both (Leaves (Left s)) (not ((uart_bridge_init R p button.1.bridge).0 ==ℤ pos 0))
        (some (set_status_leds board Status.error u)) _
        (λ _. (status-Spared board host Status.error begun u spared, inr (error_shown u)))
        (λ ok.
          Leaves-bind (Spared begun) (Left s) (identity_init board host u) _
            (identity-Spared board host begun u spared)
            (λ w v. (bring_up-Spared button.0 begun w v, inl (ground (arith, ok, kept.0))))))
    where
      button : Bool × Device Ring
      button =
          bond_reset_requested board at_boot pressed
            (works_ready board (relay_init board (leds_init board s)))

      kept : Spared s button.1
      kept = button-Spared board host at_boot pressed s _ (set_up-Spared board host s)

      u : Device Ring
      u = record button.1 { bridge = (uart_bridge_init R p button.1.bridge).1 }

      begun : Device Ring
      begun = record s { bridge = (uart_bridge_init R p s.bridge).1 }

      spared : Spared begun u
      spared = (ap (λ (b : Bridge Ring). (uart_bridge_init R p b).1) kept.0, kept.1, kept.2)
