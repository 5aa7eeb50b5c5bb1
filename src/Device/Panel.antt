-- ===== src/Device/Panel.antt =====
-- The status LEDs of src/main.c against what they report.
pub mod Path
pub mod History
use nrf_proxy.Base.{
  ℕ, ◌⊎◌, inl, inr, ◌≡◌, refl, sym, ◌∙◌, subst, Bool, true, false, not, ◌&&◌, List, [], ◌∷◌, ltb,
  if_both, arith,
}
use nrf_proxy.Platform.{Work, fired}
use nrf_proxy.Core.Link.{proxy_should_start_adv}
use nrf_proxy.Bridge.Recovery.{armed}
use nrf_proxy.Device.State.{AdvParam, HostCall, Host, Board, Device, Status, shared}
use nrf_proxy.Device.Leds.{set_led, set_status_leds, adv_blink_handler}
use nrf_proxy.Device.Relay.{relay_apply, relay_grace_handler, relay_grace_start}
use nrf_proxy.Device.Advertising.{advertising_start, slow_failed, adv_slow_handler}
use nrf_proxy.Device.Link.{
  accept_bonds, clear_accept_list, refresh_locked_mode, ref_unsecured_conn,
  security_timeout_handler, pairing_complete, on_connected, on_disconnected,
}

-- The levels of the three pins that a status asks for, `on` being the phase of the blink: the LED
-- of its role only, if the board has it, which may be the LED of another role too.
abbrev pub levels : Board → Status → Bool → Bool × Bool × Bool
levels board Status.connected on = (board.connected_port, shared board, false)
levels board Status.advertising on = (shared board && on, board.advertising_port && on, false)
levels board Status.error on = (false, false, board.error_port)

-- What the LEDs' code keeps: the status, the blink's phase and timer, and the pins.
pub record Panel : Type 0 where
  pub status : Status
  pub on : Bool
  pub blink : Work
  pub pins : Bool × Bool × Bool

abbrev pub panel : {Ring : Type 0} → Device Ring → Panel
panel s = record {
  status = s.current_status;
  on = s.adv_blink_on;
  blink = s.adv_blink_work;
  pins = (s.connected_led, s.advertising_led, s.error_led);
}

-- The pins show the status, and the blink goes on while the device advertises.
pub record IsLit (board : Board) (q : Panel) : Type 0 where
  pub shown : q.pins ≡ levels board q.status q.on
  pub blinking :
      q.status ≡ Status.advertising → board.advertising_port ≡ true → armed q.blink ≡ true

-- The pins that the board lacks are low.
abbrev pub IsDim : Board → Panel → Type 0
IsDim board q =
    (board.connected_port ≡ false → q.pins.0 ≡ false)
    × (board.advertising_port ≡ false → q.pins.1 ≡ false)
    × (board.error_port ≡ false → q.pins.2 ≡ false)

levels-IsDim :
    (board : Board) (state : Status) (on : Bool) (blink : Work)
    → IsDim board (record { status = state; on = on; blink = blink; pins = levels board state on })
levels-IsDim board Status.connected on blink = ground arith
levels-IsDim board Status.advertising on blink = ground arith
levels-IsDim board Status.error on blink = ground arith

IsLit-IsDim : (board : Board) (q : Panel) → IsLit board q → IsDim board q
IsLit-IsDim board q v =
    subst (λ pins. IsDim board (record q { pins = pins })) (sym v.shown)
      (levels-IsDim board q.status q.on q.blink)

module _ {Ring : Type 0} (board : Board) (host : Host) where
  pub status-IsLit :
      (state : Status) (s : Device Ring)
      → IsDim board (panel s)
      → IsLit board (panel (set_status_leds board state s))
  unfolding set_status_leds set_led
  status-IsLit Status.connected s v = record { shown = ground arith; blinking = λ e. absurd (cc e) }
  status-IsLit Status.advertising s v = record { shown = ground arith; blinking = λ e port. refl }
  status-IsLit Status.error s v = record { shown = ground arith; blinking = λ e. absurd (cc e) }

  pub blink-IsLit :
      (s : Device Ring)
      → IsLit board (panel s)
      → IsLit board (panel (adv_blink_handler board (record s { adv_blink_work = fired })))
  unfolding adv_blink_handler
  blink-IsLit s v = record {
    shown = ground (arith, v.shown);
    blinking = ground (arith, v.blinking);
  }

  pub on_connected-IsLit :
      (s : Device Ring) (err : ℕ)
      → IsLit board (panel s)
      → IsLit board (panel (on_connected board host err s))
  unfolding on_connected
  on_connected-IsLit s err v =
      if_both (λ (t : Device Ring). IsLit board (panel t)) (ltb 0 err) _ _ (λ _. v)
        (λ _. status-IsLit Status.connected _ (IsLit-IsDim board (panel s) v))

  pub on_disconnected-panel : (s : Device Ring) → panel (on_disconnected board host s) ≡ panel s
  unfolding on_disconnected relay_grace_start
  on_disconnected-panel s = ground arith

  advertising_start-cases :
      (s : Device Ring)
      → (panel (advertising_start board host s) ≡ panel s)
        ⊎ (panel (advertising_start board host s) ≡ panel (set_status_leds board Status.error s))
        ⊎ (panel (advertising_start board host s)
            ≡ panel (set_status_leds board Status.advertising s))
  unfolding advertising_start proxy_should_start_adv set_status_leds set_led
  advertising_start-cases s = ground arith

  pub advertising_start-IsLit :
      (s : Device Ring)
      → IsLit board (panel s)
      → IsLit board (panel (advertising_start board host s))
  advertising_start-IsLit s v =
      let d = IsLit-IsDim board (panel s) v in
      elim (advertising_start-cases s) [
        | inl e ↦ subst (IsLit board) (sym e) v
        | inr (inl e) ↦ subst (IsLit board) (sym e) (status-IsLit Status.error s d)
        | inr (inr e) ↦ subst (IsLit board) (sym e) (status-IsLit Status.advertising s d)
      ]

  first_start-cases :
      (s : Device Ring)
      → s.current_conn ≡ false
      → s.adv_active ≡ false
      → (panel (advertising_start board host s) ≡ panel (set_status_leds board Status.error s))
        ⊎ (panel (advertising_start board host s)
            ≡ panel (set_status_leds board Status.advertising s))
  unfolding advertising_start proxy_should_start_adv set_status_leds set_led
  first_start-cases s down silent = ground arith

  -- The first start, with no status shown yet.
  pub first_start-IsLit :
      (s : Device Ring)
      → s.current_conn ≡ false
      → s.adv_active ≡ false
      → IsDim board (panel s)
      → IsLit board (panel (advertising_start board host s))
  first_start-IsLit s down silent d = elim (first_start-cases s down silent) [
    | inl e ↦ subst (IsLit board) (sym e) (status-IsLit Status.error s d)
    | inr e ↦ subst (IsLit board) (sym e) (status-IsLit Status.advertising s d)
  ]

  pub watchdog-panel :
      (s : Device Ring)
      → panel (security_timeout_handler board host (record s { security_timeout_work = fired }))
        ≡ panel s
  unfolding security_timeout_handler ref_unsecured_conn
  watchdog-panel s = ground arith

  pub grace-panel :
      (s : Device Ring)
      → panel (relay_grace_handler board (record s { relay_grace_work = fired })) ≡ panel s
  unfolding relay_grace_handler relay_apply
  grace-panel s = ground arith

  accept_bonds-panel :
      (bonds : List ℕ) (s : Device Ring) → panel (accept_bonds board host bonds s) ≡ panel s
  unfolding accept_bonds
  accept_bonds-panel [] s = refl
  accept_bonds-panel (addr ∷ bonds) s = accept_bonds-panel bonds _ ∙ ground arith

  pub refresh-panel : (s : Device Ring) → panel (refresh_locked_mode board host s) ≡ panel s
  unfolding refresh_locked_mode
  refresh-panel s =
      let same = accept_bonds-panel (host.bonds s.calls) (clear_accept_list board host s) in
      ground arith

  pub paired-panel :
      (s : Device Ring) (bonded : Bool) → panel (pairing_complete board host bonded s) ≡ panel s
  unfolding pairing_complete
  paired-panel s bonded =
      if_both (λ (t : Device Ring). panel t ≡ panel s) (not bonded) s _ (λ _. refl)
        (λ _. refresh-panel s)

  failed-panel : (t : Device Ring) → panel (slow_failed board host t) ≡ panel t
  unfolding slow_failed
  failed-panel t = ground arith

  -- `P` of the panel is kept by the switch to the slow interval, if it is by what comes between.
  pub slow-panel :
      (P : Panel → Type 0) (gap : Device Ring → Device Ring) (s : Device Ring)
      → ((t : Device Ring) → P (panel t) → P (panel (gap t)))
      → P (panel s)
      → P (panel (adv_slow_handler board host gap s))
  unfolding adv_slow_handler
  slow-panel P gap s keep h =
      let stop_err = host.adv_stop_err s.calls in
      let param : AdvParam = record { slow = true; filtered = s.locked_mode } in
      let start_err = host.adv_start_err (HostCall.adv_stop stop_err ∷ s.calls) param in
      let failed : Device Ring = record s {
        adv_active = false;
        calls = HostCall.adv_start param start_err ∷ HostCall.adv_stop stop_err ∷ s.calls;
      } in
      let g = subst P (sym (failed-panel (gap failed))) (keep failed h) in ground arith
