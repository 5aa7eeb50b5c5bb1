-- ===== src/Device/Panel/History.antt =====
-- The status LEDs over every history of the device.
use nrf_proxy.Base.{
  ℕ, arith, ◌≡◌, sym, ap, ◌∙◌, subst, true, false, ◌&&◌, ltb, leb, if_both, ◌⊎◌, inl, inr,
  Bool-cases,
}
use nrf_proxy.Platform.{Platform, fired}
use nrf_proxy.RingBuf.{RingBuf}
use nrf_proxy.Bridge.Recovery.{armed}
use nrf_proxy.Device.State.{Host, Board, Device, Status, shared}
use nrf_proxy.Device.Invariant.{IsLinked}
use nrf_proxy.Device.Advertising.{adv_retry_handler}
use nrf_proxy.Device.Link.{keep_owner, on_security_changed, on_recycled}
use nrf_proxy.Device.Pause.{Pause, still, grace_fires, watchdog_fires, blink_fires, graced, watched}
use nrf_proxy.Device.Panel.{
  panel, levels, IsLit, blink-IsLit, on_connected-IsLit, on_disconnected-panel,
  advertising_start-IsLit, watchdog-panel, grace-panel, paired-panel, slow-panel,
}
use nrf_proxy.Device.Panel.Path.{received-panel, writer_step-panel}
use nrf_proxy.Device.Safety.{IsSound, Steps-IsSound}
use nrf_proxy.Device.System.{
  World, Gap, quiet, connects, recycles, Step, link_made, link_failed, link_lost, recycled, secured,
  paired, received, writer_runs, uart_event, rx_retry_due, blink_due, slow_due, retry_due,
  grace_due, watchdog_due, Steps, Steps-keeps,
}

module _ (R : RingBuf) (p : Platform) (board : Board) (host : Host) where
  open R use {Ring}

  abbrev Shows : Device Ring → Type 0
  Shows s = IsLit board (panel s)

  same-Shows : (s t : Device Ring) → panel t ≡ panel s → Shows s → Shows t
  same-Shows s t e v = subst (IsLit board) (sym e) v

  Pause-Shows :
      (f : Device Ring → Device Ring)
      → Pause board host f
      → (s : Device Ring) → Shows s
      → Shows (f s)
  Pause-Shows _ still s v = v
  Pause-Shows _ (grace_fires f inside) s v =
      same-Shows (f s) (graced board host (f s)) (grace-panel board host (f s))
        (Pause-Shows f inside s v)
  Pause-Shows _ (watchdog_fires f inside) s v =
      same-Shows (f s) (watched board host (f s)) (watchdog-panel board host (f s))
        (Pause-Shows f inside s v)
  Pause-Shows _ (blink_fires f inside) s v = blink-IsLit board host (f s) (Pause-Shows f inside s v)

  secured-Shows :
      (pause : Device Ring → Device Ring) (level err : ℕ) (s : Device Ring)
      → Pause board host pause
      → Shows s
      → Shows (on_security_changed board host pause level err s)
  unfolding on_security_changed keep_owner
  secured-Shows pause level err s inside v =
      if_both Shows (ltb 0 err) s _ (λ _. v)
        (λ _.
          if_both Shows (leb 2 level) _ s
            (λ _. Pause-Shows pause inside (record s { link_secure = true }) v) (λ _. v))

  recycled-Shows : (s : Device Ring) → Shows s → Shows (on_recycled board host s)
  unfolding on_recycled
  recycled-Shows s v = advertising_start-IsLit board host s v

  retry-Shows :
      (s : Device Ring)
      → Shows s
      → Shows (adv_retry_handler board host (record s { adv_retry_work = fired }))
  unfolding adv_retry_handler
  retry-Shows s v = advertising_start-IsLit board host (record s { adv_retry_work = fired }) v

  Gap-Shows :
      (gap : Device Ring → Device Ring)
      → Gap R p board host gap
      → (t : Device Ring) → Shows t
      → Shows (gap t)
  Gap-Shows _ quiet t v = v
  Gap-Shows _ connects t v = on_connected-IsLit board host t 0 v
  Gap-Shows _ recycles t v = recycled-Shows t v

  Step-Shows : (a b : World Ring) → Step R p board host a b → Shows a.device → Shows b.device
  Step-Shows _ _ (link_made s w down) v = on_connected-IsLit board host s 0 v
  Step-Shows _ _ (link_failed s w err bad) v = on_connected-IsLit board host s err v
  Step-Shows _ b (link_lost s w) v = same-Shows s b.device (on_disconnected-panel board host s) v
  Step-Shows _ _ (recycled s w) v = recycled-Shows s v
  Step-Shows _ _ (secured s w pause level err inside up) v =
      secured-Shows pause level err s inside v
  Step-Shows _ b (paired s w bonded up) v =
      same-Shows s b.device (paired-panel board host s bonded) v
  Step-Shows _ _ (received s t w bytes cmd scratch arrivals e) v =
      same-Shows s t (received-panel R p board host bytes cmd scratch arrivals s t e) v
  Step-Shows _ b (writer_runs s w) v = same-Shows s b.device (writer_step-panel R p board host s) v
  Step-Shows _ _ (uart_event s w e) v = v
  Step-Shows _ _ (rx_retry_due s w) v = v
  Step-Shows _ _ (blink_due s w) v = blink-IsLit board host s v
  Step-Shows _ _ (slow_due s w gap inside) v =
      slow-panel board host (IsLit board) gap (record s { adv_slow_work = fired })
        (Gap-Shows gap inside) v
  Step-Shows _ _ (retry_due s w) v = retry-Shows s v
  Step-Shows _ b (grace_due s w) v = same-Shows s b.device (grace-panel board host s) v
  Step-Shows _ b (watchdog_due s w) v = same-Shows s b.device (watchdog-panel board host s) v

  -- From a state that meets the invariant and whose LEDs show its status, over every history in
  -- which each handler that drives the LEDs runs whole: the LEDs show the status; a link is down, or
  -- the connected LED is driven on, if the board has it, and no other LED is; and no advertiser is
  -- up, or the error LED is off, the connected LED is off unless the board gives it the pin of the
  -- advertising LED, and the board lacks the advertising LED or the timer of its blink is armed.
  pub leds_tell :
      (a b : World Ring)
      → IsSound R p board host a
      → IsLit board (panel a.device)
      → Steps R p board host a b
      → IsLit board (panel b.device)
        × ((b.device.current_conn ≡ false)
            ⊎ ((panel b.device).pins ≡ levels board Status.connected b.device.adv_blink_on))
        × ((b.device.adv_active ≡ false)
            ⊎ (b.device.connected_led ≡ (shared board && b.device.advertising_led))
              × (b.device.error_led ≡ false)
              × ((board.advertising_port ≡ false) ⊎ (armed b.device.adv_blink_work ≡ true)))
  leds_tell a b h v steps =
      (lit, joined (Bool-cases b.device.current_conn), advertised (Bool-cases b.device.adv_active))
    where
      lit : Shows b.device
      lit = Steps-keeps R p board host (λ c. Shows c.device) Step-Shows a b steps v

      link : IsLinked board b.device
      link = (Steps-IsSound R p board host a b steps h).0

      pins :
          (state : Status)
          → b.device.current_status ≡ state
          → (panel b.device).pins ≡ levels board state b.device.adv_blink_on
      pins state e = lit.shown ∙ ap (λ state. levels board state b.device.adv_blink_on) e

      joined :
          (b.device.current_conn ≡ true) ⊎ (b.device.current_conn ≡ false)
          → (b.device.current_conn ≡ false)
            ⊎ ((panel b.device).pins ≡ levels board Status.connected b.device.adv_blink_on)
      joined (inl up) = inr (pins Status.connected (link.shown up))
      joined (inr down) = inl down

      blinks_alone :
          b.device.connected_led ≡ (shared board && b.device.adv_blink_on)
          → b.device.advertising_led ≡ (board.advertising_port && b.device.adv_blink_on)
          → b.device.connected_led ≡ (shared board && b.device.advertising_led)
      blinks_alone c a = ground arith

      advertised :
          (b.device.adv_active ≡ true) ⊎ (b.device.adv_active ≡ false)
          → (b.device.adv_active ≡ false)
            ⊎ (b.device.connected_led ≡ (shared board && b.device.advertising_led))
              × (b.device.error_led ≡ false)
              × ((board.advertising_port ≡ false) ⊎ (armed b.device.adv_blink_work ≡ true))
      advertised (inl on) =
          let e = link.blinks on in
          inr (
            blinks_alone (ap (λ q. q.0) (pins Status.advertising e))
                (ap (λ q. q.1) (pins Status.advertising e)),
            ap (λ q. q.2) (pins Status.advertising e),
            elim (Bool-cases board.advertising_port) [
              | inl port ↦ inr (lit.blinking e port)
              | inr none ↦ inl none
            ],
          )
      advertised (inr off) = inl off
