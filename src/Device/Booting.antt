-- ===== src/Device/Booting.antt =====
-- The state that `main` ends in.
use nrf_proxy.Base.{
  ℕ, ◌≤◌, ◌<◌, ◌≡◌, refl, sym, ap, ◌∙◌, subst, ◌⊎◌, inl, inr, Bool, false, not, Option, some, arith,
  if◌then◌else◌, if_both, length, All, ◌>>=◌, length, All, ◌>>=◌,
}
use nrf_proxy.Base.Int.{ℤ, pos, ◌==ℤ◌}
use nrf_proxy.Platform.{Platform}
use nrf_proxy.RingBuf.{RingBuf}
use nrf_proxy.Core.Link.{proxy_should_start_adv}
use nrf_proxy.Core.Identity.Derive.{IsSized, derive_returns}
use nrf_proxy.Core.Identity.{Identity, proxy_identity_derive}
use nrf_proxy.Bridge.Api.{uart_bridge_init}
use nrf_proxy.Device.State.{Board, Host, HostCall, Device, Status, Calls, log_host}
use nrf_proxy.Device.Leds.{set_led, leds_init, set_status_leds}
use nrf_proxy.Device.Relay.{relay_init}
use nrf_proxy.Device.Advertising.{advertising_start}
use nrf_proxy.Device.Link.{refresh_locked_mode}
use nrf_proxy.Device.Boot.{
  bond_reset_requested, identity_init, name_and_advertise, bring_up, works_ready, strlen, main,
}
use nrf_proxy.Device.Filter.{IsGuarded, advertising_start-IsGuarded}
use nrf_proxy.Device.Panel.{panel, IsLit, status-IsLit, first_start-IsLit, refresh-panel}
use nrf_proxy.Device.Invariant.{IsLinked, IsReachable}
use nrf_proxy.Device.Keeps.{advertising_start-IsLinked, advertising_start-IsReachable}
use nrf_proxy.Device.Timers.{refresh-Same}
use nrf_proxy.Device.Traffic.{bridge-Same}
use nrf_proxy.Device.Writing.{Leaves, Leaves-bind, Leaves-trivial}
use nrf_proxy.Device.Idle.{
  IsIdle, Parts-IsIdle, IsIdle-IsLinked, Same-IsIdle, button-IsIdle, set_up-IsIdle,
  started-identity,
}

returns-bind :
    {A B : Type 0} (o : Option A) (f : A → Option B)
    → (a : A) × (o ≡ some a)
    → ((a : A) → (b : B) × (f a ≡ some b))
    → (b : B) × ((o >>= f) ≡ some b)
returns-bind o f (a, e) k = ((k a).0, ap (λ o. o >>= f) e ∙ (k a).1)

module _ (R : RingBuf) (p : Platform) (board : Board) (host : Host) where
  open R use {Ring}

  -- How a boot ends: the relay off, the invariant of the link, the device reachable, unless the
  -- error LED says that a part did not come up, the advertiser filtered in the locked mode, and the
  -- LEDs showing the status.
  pub record IsBooted (t : Device Ring) : Type 0 where
    pub linked : IsLinked board t
    pub relay_off : t.relay_pin ≡ false
    pub reachable : (IsReachable board false t) ⊎ (t.current_status ≡ Status.error)
    pub guarded : IsGuarded t
    pub lit : IsLit board (panel t)

  error-IsBooted :
      (s : Device Ring) → IsIdle board s → IsBooted (set_status_leds board Status.error s)
  unfolding set_status_leds set_led
  error-IsBooted s i = record {
    linked = IsIdle-IsLinked board _ (Parts-IsIdle board _ (ground arith));
    relay_off = i.pin_off;
    reachable = inr refl;
    guarded = ground (arith, i.silent);
    lit = status-IsLit board host Status.error s i.dim;
  }

  advertised-pin : (s : Device Ring) → (advertising_start board host s).relay_pin ≡ s.relay_pin
  unfolding advertising_start proxy_should_start_adv set_status_leds set_led
  advertised-pin s = ground arith

  advertised-IsBooted :
      (s : Device Ring) → IsIdle board s → IsBooted (advertising_start board host s)
  advertised-IsBooted s i = record {
    linked = advertising_start-IsLinked board host s (IsIdle-IsLinked board s i);
    guarded = advertising_start-IsGuarded board host s (λ up. absurd (cc (up, i.silent)));
    lit = first_start-IsLit board host s i.down i.silent i.dim;
    relay_off = advertised-pin s ∙ i.pin_off;
    reachable = inl (advertising_start-IsReachable board host s false);
  }

  logged-IsIdle :
      (s : Device Ring) (tr : Calls) (n : ℕ)
      → IsIdle board s
      → IsIdle board (record s { calls = tr; name_len = n })
  logged-IsIdle s tr n v = Parts-IsIdle board _ (ground arith)

  identity-IsIdle :
      (s : Device Ring) → IsIdle board s → Leaves (IsIdle board) (identity_init board host s)
  unfolding identity_init
  identity-IsIdle s v =
      Leaves-bind (λ _. Unit) (IsIdle board)
        (proxy_identity_derive board.device_name (some host.id_bytes) host.id_len s.identity) _
        (Leaves-trivial
          (proxy_identity_derive board.device_name (some host.id_bytes) host.id_len s.identity))
        (λ i _.
          if_both (IsIdle board) (not i.addr_valid) (record s { identity = i }) _
            (λ _. Parts-IsIdle board _ (ground arith)) (λ _. Parts-IsIdle board _ (ground arith)))

  name-IsBooted :
      (reset : Bool) (s : Device Ring)
      → IsIdle board s
      → IsBooted (name_and_advertise R p board host reset s)
  unfolding name_and_advertise
  name-IsBooted reset s v =
      if_both IsBooted (not (nus_err ==ℤ pos 0)) (set_status_leds board Status.error up)
        (advertising_start board host (refresh_locked_mode board host wiped))
        (λ _. error-IsBooted up (logged-IsIdle s up.calls up.name_len v))
        (λ _. advertised-IsBooted _ (
          Same-IsIdle board wiped _ (refresh-Same board host wiped) (refresh-panel board host wiped)
            (if_both (IsIdle board) reset (log_host (HostCall.unpair (host.unpair_err up.calls)) up)
              up (λ _. logged-IsIdle s _ up.name_len v)
              (λ _. logged-IsIdle s up.calls up.name_len v))))
    where
      named : Device Ring
      named = record (log_host (HostCall.set_name s.identity.name (host.set_name_err s.calls)) s) {
        name_len = strlen s.identity.name;
      }

      nus_err : ℤ
      nus_err = host.nus_init_err named.calls

      up : Device Ring
      up = log_host (HostCall.nus_init nus_err) named

      wiped : Device Ring
      wiped = if reset then log_host (HostCall.unpair (host.unpair_err up.calls)) up else up

  bring_up-IsBooted :
      (reset : Bool) (s : Device Ring) → IsIdle board s → IsBooted (bring_up R p board host reset s)
  unfolding bring_up
  bring_up-IsBooted reset s v =
      if_both IsBooted (not (host.enable_err s.calls ==ℤ pos 0))
        (set_status_leds board Status.error enabled)
        (name_and_advertise R p board host reset
          (if board.settings then log_host HostCall.load enabled else enabled))
        (λ _. error-IsBooted enabled start)
        (λ _. name-IsBooted reset _ (
          if_both (IsIdle board) board.settings (log_host HostCall.load enabled) enabled
            (λ _. logged-IsIdle s _ s.name_len v) (λ _. start)))
    where
      enabled : Device Ring
      enabled = log_host (HostCall.enable (host.enable_err s.calls)) s

      start : IsIdle board enabled
      start = logged-IsIdle s enabled.calls s.name_len v

  pub main_returns :
      (at_boot : Bool) (pressed : ℕ → Bool) (s : Device Ring)
      → IsSized s.identity
      → 6 ≤ length host.id_bytes
      → All (λ b. b < 256) host.id_bytes
      → (t : Device Ring) × (main R p board host at_boot pressed s ≡ some t)
  unfolding main identity_init
  main_returns at_boot pressed s sized len bytes =
      if_both (λ (o : Option (Device Ring)). (t : Device Ring) × (o ≡ some t))
        (not ((uart_bridge_init R p button.1.bridge).0 ==ℤ pos 0))
        (some (set_status_leds board Status.error u))
        (identity_init board host u >>= (λ w. some (bring_up R p board host button.0 w)))
        (λ _. (_, refl))
        (λ _.
          returns-bind (identity_init board host u) (λ w. some (bring_up R p board host button.0 w))
            (returns-bind
              (proxy_identity_derive board.device_name (some host.id_bytes) host.id_len u.identity)
              _ derived (λ r. (_, refl)))
            (λ w. (_, refl)))
    where
      button : Bool × Device Ring
      button =
          bond_reset_requested board at_boot pressed
            (works_ready board (relay_init board (leds_init board s)))

      u : Device Ring
      u = record button.1 { bridge = (uart_bridge_init R p button.1.bridge).1 }

      derived :
          (r : Identity) × (proxy_identity_derive board.device_name
              (some host.id_bytes)
              host.id_len
              u.identity
            ≡ some r)
      derived =
          derive_returns board.device_name host.id_bytes host.id_len u.identity len bytes
            (subst IsSized (sym (started-identity board at_boot pressed s)) sized)

  main-IsBooted :
      (at_boot : Bool) (pressed : ℕ → Bool) (s t : Device Ring)
      → IsIdle board s
      → main R p board host at_boot pressed s ≡ some t
      → IsBooted t
  unfolding main
  main-IsBooted at_boot pressed s t v e = subst (Leaves IsBooted) e (
      if_both (Leaves IsBooted) (not ((uart_bridge_init R p button.1.bridge).0 ==ℤ pos 0))
        (some (set_status_leds board Status.error u)) _ (λ _. error-IsBooted u u_idle)
        (λ _.
          Leaves-bind (IsIdle board) IsBooted (identity_init board host u) _
            (identity-IsIdle u u_idle) (λ w i. bring_up-IsBooted button.0 w i)))
    where
      button : Bool × Device Ring
      button =
          bond_reset_requested board at_boot pressed
            (works_ready board (relay_init board (leds_init board s)))

      idle : IsIdle board button.1
      idle = button-IsIdle board at_boot pressed _ (set_up-IsIdle board s v)

      u : Device Ring
      u = record button.1 { bridge = (uart_bridge_init R p button.1.bridge).1 }

      u_idle : IsIdle board u
      u_idle = Same-IsIdle board button.1 u (bridge-Same board host button.1 u.bridge) refl idle

  -- However the boot goes, from the statics as the linker leaves them: `main` returns, with the
  -- relay off whatever the button, the bonds and the errors; the device is reachable, or the
  -- status is the error because the UART, Bluetooth or the NUS service did not come up; an
  -- advertiser that is up has the accept-list filter exactly in the locked mode; and the LEDs show
  -- the status. The buffer of the hardware ID has at least the six bytes that the derivation reads.
  pub main_boots :
      (at_boot : Bool) (pressed : ℕ → Bool) (s : Device Ring)
      → IsIdle board s
      → IsSized s.identity
      → 6 ≤ length host.id_bytes
      → All (λ b. b < 256) host.id_bytes
      → (t : Device Ring) × (main R p board host at_boot pressed s ≡ some t) × IsBooted t
  main_boots at_boot pressed s v sized len bytes =
      let (t, e) = main_returns at_boot pressed s sized len bytes in
      (t, e, main-IsBooted at_boot pressed s t v e)
