-- ===== src/Device/Outsider.antt =====
-- A phone that never encrypts its link, against src/main.c.
pub mod History
use nrf_proxy.Base.{ℕ, ◌≡◌, ◌⊎◌, true, false, Bool, not, List, [], ◌∷◌, arith, if_both}
use nrf_proxy.Platform.{fired}
use nrf_proxy.Core.Link.{proxy_should_start_adv}
use nrf_proxy.Bridge.Pipeline.{accepted}
use nrf_proxy.Bridge.Baud.{rate}
use nrf_proxy.Device.Phase.{writer_refs}
use nrf_proxy.Device.State.{AdvParam, HostCall, Calls, Host, Board, Device}
use nrf_proxy.Device.Leds.{set_led, set_status_leds, adv_blink_handler}
use nrf_proxy.Device.Relay.{relay_apply, relay_grace_handler, relay_grace_start}
use nrf_proxy.Device.Advertising.{advertising_start, slow_failed, adv_slow_handler}
use nrf_proxy.Device.Link.{
  accept_bonds, clear_accept_list, refresh_locked_mode, ref_unsecured_conn,
  security_timeout_handler, pairing_complete, on_connected, on_disconnected,
}

-- The notifications that were tried.
abbrev pub notified : Calls → List (List ℕ)
notified [] = []
notified (HostCall.nus_send bytes err ∷ tr) = bytes ∷ notified tr
notified (_ ∷ tr) = notified tr

module _ {Ring : Type 0} where
  -- From `a` to `s` no phone got anything: the link is not encrypted and the writer holds no
  -- connection, no notification was tried, the transmit ring took nothing, the rate is the same,
  -- and the relay is off or as it was.
  pub record Untouched (a s : Device Ring) : Type 0 where
    pub unsafe : s.link_secure ≡ false
    pub parked : writer_refs s.writer ≡ 0
    pub quiet : notified s.calls ≡ notified a.calls
    pub unsent : accepted s.bridge.calls ≡ accepted a.bridge.calls
    pub rated : rate s.bridge.calls ≡ rate a.bridge.calls
    pub relay : (s.relay_pin ≡ false) ⊎ (s.relay_pin ≡ a.relay_pin)

  abbrev Parts : Device Ring → Device Ring → Type 0
  Parts a s =
      (s.link_secure ≡ false)
      × (writer_refs s.writer ≡ 0)
      × (notified s.calls ≡ notified a.calls)
      × (accepted s.bridge.calls ≡ accepted a.bridge.calls)
      × (rate s.bridge.calls ≡ rate a.bridge.calls)
      × ((s.relay_pin ≡ false) ⊎ (s.relay_pin ≡ a.relay_pin))

  pub Parts-Untouched : (a s : Device Ring) → Parts a s → Untouched a s
  Parts-Untouched a s (b, c, d, e, f, g) = record {
    unsafe = b;
    parked = c;
    quiet = d;
    unsent = e;
    rated = f;
    relay = g;
  }

module _ {Ring : Type 0} (board : Board) (host : Host) (a : Device Ring) where
  pub on_connected-Untouched :
      (s : Device Ring) (err : ℕ) → Untouched a s → Untouched a (on_connected board host err s)
  unfolding on_connected set_status_leds set_led
  on_connected-Untouched s err v = Parts-Untouched a _ (ground arith)

  pub on_disconnected-Untouched :
      (s : Device Ring) → Untouched a s → Untouched a (on_disconnected board host s)
  unfolding on_disconnected relay_grace_start
  on_disconnected-Untouched s v = Parts-Untouched a _ (ground arith)

  pub advertising_start-Untouched :
      (s : Device Ring) → Untouched a s → Untouched a (advertising_start board host s)
  unfolding advertising_start proxy_should_start_adv set_status_leds set_led
  advertising_start-Untouched s v = Parts-Untouched a _ (ground arith)

  pub watchdog-Untouched :
      (s : Device Ring)
      → Untouched a s
      → Untouched a
          (security_timeout_handler board host (record s { security_timeout_work = fired }))
  unfolding security_timeout_handler ref_unsecured_conn
  watchdog-Untouched s v = Parts-Untouched a _ (ground arith)

  pub grace-Untouched :
      (s : Device Ring)
      → Untouched a s
      → Untouched a (relay_grace_handler board (record s { relay_grace_work = fired }))
  unfolding relay_grace_handler relay_apply
  grace-Untouched s v = Parts-Untouched a _ (ground arith)

  pub blink-Untouched :
      (s : Device Ring)
      → Untouched a s
      → Untouched a (adv_blink_handler board (record s { adv_blink_work = fired }))
  unfolding adv_blink_handler
  blink-Untouched s v = Parts-Untouched a _ (ground arith)

  accept_bonds-Untouched :
      (bonds : List ℕ) (s : Device Ring)
      → Untouched a s
      → Untouched a (accept_bonds board host bonds s)
  unfolding accept_bonds
  accept_bonds-Untouched [] s v = v
  accept_bonds-Untouched (addr ∷ bonds) s v =
      accept_bonds-Untouched bonds _ (Parts-Untouched a _ (ground arith))

  refresh-Untouched :
      (s : Device Ring) → Untouched a s → Untouched a (refresh_locked_mode board host s)
  unfolding refresh_locked_mode
  refresh-Untouched s v =
      let filled =
        accept_bonds-Untouched (host.bonds s.calls) (clear_accept_list board host s)
          (Parts-Untouched a _ (ground arith)) in
      Parts-Untouched a _ (ground arith)

  pub paired-Untouched :
      (s : Device Ring) (bonded : Bool)
      → Untouched a s
      → Untouched a (pairing_complete board host bonded s)
  unfolding pairing_complete
  paired-Untouched s bonded v =
      if_both (Untouched a) (not bonded) s _ (λ _. v) (λ _. refresh-Untouched s v)

  failed-Untouched : (t : Device Ring) → Untouched a t → Untouched a (slow_failed board host t)
  unfolding slow_failed
  failed-Untouched t v = Parts-Untouched a _ (ground arith)

  pub slow-Untouched :
      (gap : Device Ring → Device Ring) (s : Device Ring)
      → ((t : Device Ring) → Untouched a t → Untouched a (gap t))
      → Untouched a s
      → Untouched a (adv_slow_handler board host gap (record s { adv_slow_work = fired }))
  unfolding adv_slow_handler
  slow-Untouched gap s keep v =
      let stop_err = host.adv_stop_err s.calls in
      let param : AdvParam = record { slow = true; filtered = s.locked_mode } in
      let start_err = host.adv_start_err (HostCall.adv_stop stop_err ∷ s.calls) param in
      let failed : Device Ring = record s {
        adv_slow_work = fired;
        adv_active = false;
        calls = HostCall.adv_start param start_err ∷ HostCall.adv_stop stop_err ∷ s.calls;
      } in
      let g =
        failed-Untouched (gap failed) (keep failed (Parts-Untouched a failed (ground arith))) in
      Parts-Untouched a _ (ground arith)
