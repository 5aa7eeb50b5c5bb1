-- ===== src/Device/Idle.antt =====
-- The device before its first advertiser.
use nrf_proxy.Base.{
  ℕ, zero, suc, ◌%◌, ◌≡◌, refl, sym, ap, ◌∙◌, subst, Bool, false, not, ◌==◌, arith, if◌then◌else◌,
  if_both,
}
use nrf_proxy.Device.Phase.{writer_refs}
use nrf_proxy.Device.State.{Board, Device, Status}
use nrf_proxy.Device.Leds.{set_led, leds_init}
use nrf_proxy.Device.Relay.{relay_init}
use nrf_proxy.Device.Boot.{hold_loop, bond_reset_requested, works_ready}
use nrf_proxy.Device.Invariant.{IsLinked, Same}
use nrf_proxy.Device.Panel.{panel, IsDim}

module _ {Ring : Type 0} (board : Board) where
  -- No link and no reference to one but the writer's, no advertiser, the relay off, and the pins of
  -- LEDs that the board lacks low: the statics as `main` finds them, and until it is done.
  pub record IsIdle (s : Device Ring) : Type 0 where
    pub down : s.current_conn ≡ false
    pub open_link : s.link_secure ≡ false
    pub silent : s.adv_active ≡ false
    pub free : s.conn_refs ≡ writer_refs s.writer
    pub pin_off : s.relay_pin ≡ false
    pub relay_off : s.relay_enabled ≡ false
    pub dim : IsDim board (panel s)

  abbrev Parts : Device Ring → Type 0
  Parts s =
      (s.current_conn ≡ false)
      × (s.link_secure ≡ false)
      × (s.adv_active ≡ false)
      × (s.conn_refs ≡ writer_refs s.writer)
      × (s.relay_pin ≡ false)
      × (s.relay_enabled ≡ false)
      × (IsDim board (panel s))

  pub Parts-IsIdle : (s : Device Ring) → Parts s → IsIdle s
  Parts-IsIdle s (a, b, c, d, e, f, g) = record {
    down = a;
    open_link = b;
    silent = c;
    free = d;
    pin_off = e;
    relay_off = f;
    dim = g;
  }

  pub IsIdle-IsLinked : (s : Device Ring) → IsIdle s → IsLinked board s
  IsIdle-IsLinked s i = record {
    secure = ground (arith, i.open_link);
    one = λ h. i.silent;
    held = ground (arith, i.relay_off);
    wired = ground (arith, i.relay_off);
    pin = i.pin_off ∙ sym i.relay_off;
    watched = ground (arith, i.down);
    counted = ground (arith, i.down, i.free);
    shown = ground (arith, i.down);
    blinks = ground (arith, i.silent);
  }

  pub Same-IsIdle : (s t : Device Ring) → Same board s t → panel t ≡ panel s → IsIdle s → IsIdle t
  Same-IsIdle s t e q i = record {
    down = e.conn ∙ i.down;
    open_link = e.sec ∙ i.open_link;
    silent = e.adv ∙ i.silent;
    free = e.refs ∙ i.free ∙ ap writer_refs (sym e.phase);
    pin_off = e.level ∙ i.pin_off;
    relay_off = e.relay ∙ i.relay_off;
    dim = subst (IsDim board) (sym q) i.dim;
  }

  abbrev AfterIdle : Bool × Device Ring → Type 0
  AfterIdle r = IsIdle r.1

  led-IsIdle :
      (level : Bool) (s : Device Ring)
      → IsIdle s
      → IsIdle (set_led board Status.advertising level s)
  unfolding set_led
  led-IsIdle level s v = Parts-IsIdle _ (ground arith)

  hold_loop-IsIdle :
      (pressed : ℕ → Bool) (n i : ℕ) (s : Device Ring)
      → IsIdle s
      → IsIdle (hold_loop board pressed n i s).1
  unfolding hold_loop
  hold_loop-IsIdle pressed zero i s v = led-IsIdle false s v
  hold_loop-IsIdle pressed (suc n) i s v =
      if_both AfterIdle (not (pressed i)) (false, set_led board Status.advertising false s)
        (hold_loop board pressed n (suc i) (set_led board Status.advertising (i % 2 == 1) s))
        (λ _. led-IsIdle false s v)
        (λ _. hold_loop-IsIdle pressed n (suc i) _ (led-IsIdle (i % 2 == 1) s v))

  pub button-IsIdle :
      (at_boot : Bool) (pressed : ℕ → Bool) (s : Device Ring)
      → IsIdle s
      → IsIdle (bond_reset_requested board at_boot pressed s).1
  unfolding bond_reset_requested
  button-IsIdle at_boot pressed s v =
      if_both AfterIdle (not board.button_port) (false, s)
        (if not board.button_ready
          then (false, s)
          else if not at_boot
          then (false, s)
          else hold_loop board pressed 30 0 s)
        (λ _. v)
        (λ _.
          if_both AfterIdle (not board.button_ready) (false, s)
            (if not at_boot then (false, s) else hold_loop board pressed 30 0 s) (λ _. v)
            (λ _.
              if_both AfterIdle (not at_boot) (false, s) (hold_loop board pressed 30 0 s) (λ _. v)
                (λ _. hold_loop-IsIdle pressed 30 0 s v)))

  hold_loop-identity :
      (pressed : ℕ → Bool) (n i : ℕ) (s : Device Ring)
      → (hold_loop board pressed n i s).1.identity ≡ s.identity
  unfolding hold_loop set_led
  hold_loop-identity pressed zero i s = refl
  hold_loop-identity pressed (suc n) i s = ground (
    arith,
    hold_loop-identity pressed n (suc i) (set_led board Status.advertising (i % 2 == 1) s),
  )

  pub started-identity :
      (at_boot : Bool) (pressed : ℕ → Bool) (s : Device Ring)
      → (bond_reset_requested board at_boot pressed
          (works_ready board (relay_init board (leds_init board s)))).1.identity
        ≡ s.identity
  unfolding bond_reset_requested relay_init leds_init set_led
  started-identity at_boot pressed s = ground (
    arith,
    hold_loop-identity pressed 30 0 (works_ready board (relay_init board (leds_init board s))),
  )

  pub set_up-IsIdle :
      (s : Device Ring)
      → IsIdle s
      → IsIdle (works_ready board (relay_init board (leds_init board s)))
  unfolding relay_init leds_init set_led
  set_up-IsIdle s v = record {
    down = ground (arith, v.down);
    open_link = ground (arith, v.open_link);
    silent = ground (arith, v.silent);
    free = ground (arith, v.free);
    pin_off = ground (arith, v.pin_off);
    relay_off = ground arith;
    dim = ground (arith, v.dim);
  }
