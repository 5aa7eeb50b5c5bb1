-- ===== src/Device/Lifecycle/Refine.antt =====
-- The device implements the small machine.
use nrf_proxy.Base.{
  ℕ, ◌<◌, ◌≡◌, refl, sym, ap, ◌⊎◌, inl, inr, subst, Bool, true, false, List, some, arith, lt→ltb,
  Bool-cases, ◌∷◌,
}
use nrf_proxy.Platform.{Platform, fired}
use nrf_proxy.RingBuf.{RingBuf}
use nrf_proxy.Core.Command.{Cmd}
use nrf_proxy.Core.Link.{proxy_should_start_adv}
use nrf_proxy.Bridge.Api.{Arrivals}
use nrf_proxy.Device.State.{AdvParam, HostCall, Host, Board, Device}
use nrf_proxy.Device.Leds.{set_led, set_status_leds}
use nrf_proxy.Device.Relay.{relay_apply, relay_set, relay_grace_handler, relay_grace_start}
use nrf_proxy.Device.Advertising.{
  advertising_start, slow_failed, adv_slow_handler, adv_retry_handler,
}
use nrf_proxy.Device.Link.{
  keep_owner, ref_unsecured_conn, security_timeout_handler, on_security_changed, on_connected,
  on_disconnected, on_recycled,
}
use nrf_proxy.Device.Received.{nus_received}
use nrf_proxy.Device.Traffic.{received-cases}
use nrf_proxy.Device.Thread.{writer_step}
use nrf_proxy.Device.Invariant.{IsLinked, Same}
use nrf_proxy.Device.Keeps.{blink-Same}
use nrf_proxy.Device.Pause.{Pause, Pause-IsHeld}
use nrf_proxy.Device.Secured.{secured_both, opened}
use nrf_proxy.Device.Frame.{received-view, writer_step-view}
use nrf_proxy.Device.Safety.{IsSound, Steps-IsSound, pairing_complete-Same}
use nrf_proxy.Device.Lifecycle.{Mode, Move, mode_of, observed, allowed, MayMove, MayMove-Move}
use nrf_proxy.Device.System.{
  World, Gap, quiet, connects, recycles, Step, link_made, link_failed, link_lost, recycled, secured,
  paired, received, writer_runs, uart_event, rx_retry_due, blink_due, slow_due, retry_due,
  grace_due, watchdog_due, Steps,
}

module _ {Ring : Type 0} (board : Board) (host : Host) where
  rest-MayMove : (s : Device Ring) → MayMove s s
  rest-MayMove s = ground arith

  -- A step that leaves the link and the relay alone.
  abbrev link : Device Ring → Bool × Bool × Bool × Bool
  link s = (s.current_conn, s.link_secure, s.adv_active, s.relay_pin)

  same-MayMove : (s t : Device Ring) → Same board s t → MayMove s t
  same-MayMove s t e = rw (e.conn, e.sec, e.adv, e.level) (rest-MayMove s)

  connected-MayMove :
      (s : Device Ring) → s.current_conn ≡ false → MayMove s (on_connected board host 0 s)
  unfolding on_connected set_status_leds set_led
  connected-MayMove s down = ground arith

  failed-MayMove : (s : Device Ring) (err : ℕ) → 0 < err → MayMove s (on_connected board host err s)
  unfolding on_connected
  failed-MayMove s err bad = rw (lt→ltb 0 err bad) (ground arith)

  disconnected-MayMove :
      (s : Device Ring) → IsLinked board s → MayMove s (on_disconnected board host s)
  unfolding on_disconnected relay_grace_start
  disconnected-MayMove s v = ground arith

  started-MayMove : (s : Device Ring) → MayMove s (advertising_start board host s)
  unfolding advertising_start proxy_should_start_adv set_status_leds set_led
  started-MayMove s = ground arith

  watchdog-MayMove :
      (s : Device Ring)
      → MayMove s (security_timeout_handler board host (record s { security_timeout_work = fired }))
  unfolding security_timeout_handler ref_unsecured_conn
  watchdog-MayMove s = ground arith

  grace-MayMove :
      (s : Device Ring)
      → MayMove s (relay_grace_handler board (record s { relay_grace_work = fired }))
  unfolding relay_grace_handler relay_apply
  grace-MayMove s = ground arith

  secured-MayMove :
      (pause : Device Ring → Device Ring) (level err : ℕ) (s : Device Ring)
      → Pause board host pause
      → s.current_conn ≡ true
      → MayMove s (on_security_changed board host pause level err s)
  unfolding keep_owner
  secured-MayMove pause level err s inside up =
      let held = Pause-IsHeld board host pause inside (opened board host pause s) up refl in
      secured_both board host pause (MayMove s) level err s (rest-MayMove s) (ground arith)

  -- What may come between the failed slow start and the next section keeps the link unencrypted.
  abbrev Between : Device Ring → Device Ring → Type 0
  Between s t = (t.link_secure ≡ false) × (t.relay_pin ≡ s.relay_pin)

  connected-Between : (s : Device Ring) → Between s (on_connected board host 0 s)
  unfolding on_connected set_status_leds set_led
  connected-Between s = ground arith

  started-Between :
      (s : Device Ring) → s.link_secure ≡ false → Between s (advertising_start board host s)
  unfolding advertising_start proxy_should_start_adv set_status_leds set_led
  started-Between s unsafe = ground arith

  failed-Between : (s t : Device Ring) → Between s t → Between s (slow_failed board host t)
  unfolding slow_failed
  failed-Between s t e = ground arith

  pub slow-MayMove :
      (gap : Device Ring → Device Ring) (s : Device Ring)
      → ((t : Device Ring) → t.link_secure ≡ false → Between t (gap t))
      → IsLinked board s
      → MayMove s (adv_slow_handler board host gap (record s { adv_slow_work = fired }))
  unfolding adv_slow_handler
  slow-MayMove gap s between v =
      let stop_err = host.adv_stop_err s.calls in
      let param : AdvParam = record { slow = true; filtered = s.locked_mode } in
      let start_err = host.adv_start_err (HostCall.adv_stop stop_err ∷ s.calls) param in
      let failed : Device Ring = record s {
        adv_slow_work = fired;
        adv_active = false;
        calls = HostCall.adv_start param start_err ∷ HostCall.adv_stop stop_err ∷ s.calls;
      } in
      let g = λ (unsafe : s.link_secure ≡ false).
        failed-Between failed (gap failed) (between failed unsafe) in
      elim (Bool-cases s.link_secure) [
        | inl sec ↦ let up = v.secure sec in ground arith
        | inr unsafe ↦ let h = g unsafe in ground arith
      ]

module _ (R : RingBuf) (p : Platform) (board : Board) (host : Host) where
  open R use {Ring}

  recycled-MayMove : (s : Device Ring) → MayMove s (on_recycled board host s)
  unfolding on_recycled
  recycled-MayMove s = started-MayMove board host s

  retried-MayMove :
      (s : Device Ring)
      → MayMove s (adv_retry_handler board host (record s { adv_retry_work = fired }))
  unfolding adv_retry_handler
  retried-MayMove s = started-MayMove board host (record s { adv_retry_work = fired })

  recycled-Between :
      (s : Device Ring) → s.link_secure ≡ false → Between board host s (on_recycled board host s)
  unfolding on_recycled
  recycled-Between s unsafe = started-Between board host s unsafe

  Gap-Between :
      (gap : Device Ring → Device Ring)
      → Gap R p board host gap
      → (t : Device Ring) → t.link_secure ≡ false
      → Between board host t (gap t)
  Gap-Between _ quiet t unsafe = (unsafe, refl)
  Gap-Between _ connects t unsafe = connected-Between board host t
  Gap-Between _ recycles t unsafe = recycled-Between t unsafe

  -- Who is on the link.
  abbrev phone : Device Ring → Bool × Bool × Bool
  phone s = (s.current_conn, s.link_secure, s.adv_active)

  relay_set-phone : (s : Device Ring) (enable : Bool) → phone (relay_set board enable s) ≡ phone s
  unfolding relay_set relay_apply
  relay_set-phone s enable = ground arith

  -- Received data may switch the relay, and only on an encrypted link.
  received-MayMove :
      (bytes : List ℕ) (cmd : Cmd) (scratch : List ℕ) (arrivals : Arrivals) (s t : Device Ring)
      → nus_received R p board host bytes cmd scratch arrivals s ≡ some t
      → IsLinked board s
      → MayMove s t
  received-MayMove bytes cmd scratch arrivals s t e v =
      let same =
        received-view R p board host phone (λ s b. refl) (λ s bytes err. refl) relay_set-phone bytes
          cmd scratch arrivals s t e in
      let conn : t.current_conn ≡ s.current_conn = ap (λ q. q.0) same in
      let sec : t.link_secure ≡ s.link_secure = ap (λ q. q.1) same in
      let adv : t.adv_active ≡ s.adv_active = ap (λ q. q.2) same in
      elim (received-cases R p board host bytes cmd scratch arrivals s t e) [
        | inl nothing ↦ subst (MayMove s) (sym nothing) (rest-MayMove board host s)
        | inr (safe, r, parsed, acted) ↦ let up = v.secure safe in ground arith
      ]

  writer_step-MayMove : (s : Device Ring) → MayMove s (writer_step R p host s)
  writer_step-MayMove s =
      let same =
        writer_step-view R p board host (link board host) (λ s b. refl) (λ s bytes err. refl)
          (λ s phase refs buf. refl) s in
      subst
        (λ (q : Bool × Bool × Bool × Bool).
          (allowed (observed s).mode (mode_of q.0 q.1 q.2) ≡ true)
          × (q.3 ≡ true
              → (s.relay_pin ≡ true)
                ⊎ ((observed s).mode ≡ Mode.owned) × (mode_of q.0 q.1 q.2 ≡ Mode.owned)))
        (sym same) (rest-MayMove board host s)

  Step-MayMove :
      (a b : World Ring)
      → Step R p board host a b
      → IsLinked board a.device
      → MayMove a.device b.device
  Step-MayMove _ _ (link_made s w down) v = connected-MayMove board host s down
  Step-MayMove _ _ (link_failed s w err bad) v = failed-MayMove board host s err bad
  Step-MayMove _ _ (link_lost s w) v = disconnected-MayMove board host s v
  Step-MayMove _ _ (recycled s w) v = recycled-MayMove s
  Step-MayMove _ _ (secured s w pause level err inside up) v =
      secured-MayMove board host pause level err s inside up
  Step-MayMove _ _ (paired s w bonded up) v =
      same-MayMove board host s _ (pairing_complete-Same R p board host s bonded)
  Step-MayMove _ _ (received s t w bytes cmd scratch arrivals e) v =
      received-MayMove bytes cmd scratch arrivals s t e v
  Step-MayMove _ _ (writer_runs s w) v = writer_step-MayMove s
  Step-MayMove _ _ (uart_event s w e) v = rest-MayMove board host s
  Step-MayMove _ _ (rx_retry_due s w) v = rest-MayMove board host s
  Step-MayMove _ _ (blink_due s w) v = same-MayMove board host s _ (blink-Same board host s)
  Step-MayMove _ _ (slow_due s w gap inside) v =
      slow-MayMove board host gap s (Gap-Between gap inside) v
  Step-MayMove _ _ (retry_due s w) v = retried-MayMove s
  Step-MayMove _ _ (grace_due s w) v = grace-MayMove board host s
  Step-MayMove _ _ (watchdog_due s w) v = watchdog-MayMove board host s

  -- From a state that meets the invariant, wherever a history leads, the next step is a move of the
  -- small machine of `Lifecycle`: the link passes on only as `Passes` says, so that it is encrypted
  -- only while it is up and an encrypted link only ends; and the relay is switched on only while the
  -- owner is on an encrypted link, before and after.
  pub lifecycle_refines :
      (a b c : World Ring)
      → IsSound R p board host a
      → Steps R p board host a b
      → Step R p board host b c
      → Move (observed b.device) (observed c.device)
  lifecycle_refines a b c h steps step =
      let v = (Steps-IsSound R p board host a b steps h).0 in
      MayMove-Move b.device c.device (Step-MayMove b c step v)
