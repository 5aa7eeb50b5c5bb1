-- ===== src/Device/Secured.antt =====
-- `on_security_changed`, with the timers that may run inside it.
use nrf_proxy.Base.{ℕ, ◌≤◌, ◌≡◌, refl, inl, Bool, true, false, arith, ltb, leb, if_both, le→leb}
use nrf_proxy.Bridge.Recovery.{armed}
use nrf_proxy.Device.State.{Host, Board, Device}
use nrf_proxy.Device.Link.{keep_owner, on_security_changed}
use nrf_proxy.Device.Invariant.{Facts-IsLinked, IsLinked, IsReachable}
use nrf_proxy.Device.Aside.{Aside}
use nrf_proxy.Device.Filter.{IsGuarded}
use nrf_proxy.Device.Pause.{
  Pause, Pause-IsLinked, Pause-Aside, Pause-IsGuarded, IsHeld, Pause-IsHeld,
}

module _ {Ring : Type 0} (board : Board) (host : Host) (pause : Device Ring → Device Ring) where
  -- The state in which the pause begins.
  abbrev pub opened : Device Ring → Device Ring
  opened s = record s { link_secure = true }

  -- What holds of the state as it was, and after the pause and the cancellations, holds.
  pub secured_both :
      (P : Device Ring → Type 0) (level err : ℕ) (s : Device Ring)
      → P s
      → P (keep_owner board host (pause (opened s)))
      → P (on_security_changed board host pause level err s)
  unfolding on_security_changed
  secured_both P level err s h k =
      if_both P (ltb 0 err) s _ (λ _. h) (λ _. if_both P (leb 2 level) _ s (λ _. k) (λ _. h))

  opened-IsLinked :
      (s : Device Ring) → s.current_conn ≡ true → IsLinked board s → IsLinked board (opened s)
  opened-IsLinked s up v = Facts-IsLinked board _ (ground arith)

  kept-IsLinked :
      (s t : Device Ring)
      → IsHeld board host s t
      → IsLinked board t
      → IsLinked board (keep_owner board host t)
  unfolding keep_owner
  kept-IsLinked s t o v = Facts-IsLinked board _ (ground arith)

  pub secured-IsLinked :
      (inside : Pause board host pause) (level err : ℕ) (s : Device Ring)
      → s.current_conn ≡ true
      → IsLinked board s
      → IsLinked board (on_security_changed board host pause level err s)
  secured-IsLinked inside level err s up v = secured_both (IsLinked board) level err s v (
      kept-IsLinked (opened s) (pause (opened s))
        (Pause-IsHeld board host pause inside (opened s) up refl)
        (Pause-IsLinked board host pause inside (opened s) (opened-IsLinked s up v)))

  pub secured-IsReachable :
      (inside : Pause board host pause) (level err : ℕ) (s : Device Ring) (w : Bool)
      → s.current_conn ≡ true
      → IsReachable board w (on_security_changed board host pause level err s)
  unfolding keep_owner
  secured-IsReachable inside level err s w up =
      secured_both (IsReachable board w) level err s (inl up)
        (inl (Pause-IsHeld board host pause inside (opened s) up refl).up)

  pub secured-Aside :
      (inside : Pause board host pause) (level err : ℕ) (s : Device Ring)
      → Aside s (on_security_changed board host pause level err s)
  unfolding keep_owner
  secured-Aside inside level err s =
      let a = Pause-Aside board host pause inside (opened s) in
      secured_both (Aside s) level err s (refl, inl refl, refl) (ground arith)

  pub secured-IsGuarded :
      (inside : Pause board host pause) (level err : ℕ) (s : Device Ring)
      → IsGuarded s
      → IsGuarded (on_security_changed board host pause level err s)
  unfolding keep_owner
  secured-IsGuarded inside level err s h =
      secured_both IsGuarded level err s h (Pause-IsGuarded board host pause inside (opened s) h)

  -- When the link of the owner becomes encrypted, whatever timers run inside the callback, the
  -- grace timer and the watchdog included: the relay stays as it is, the link counts as encrypted,
  -- both timers end cancelled, and the writer is woken.
  pub relay_kept :
      (inside : Pause board host pause) (level : ℕ) (s : Device Ring)
      → 2 ≤ level
      → s.current_conn ≡ true
      → let t = on_security_changed board host pause level 0 s in
        (t.relay_pin ≡ s.relay_pin)
        × (t.relay_enabled ≡ s.relay_enabled)
        × (t.link_secure ≡ true)
        × (armed t.relay_grace_work ≡ false)
        × (armed t.security_timeout_work ≡ false)
        × (t.bridge.rx_ready ≡ true)
  unfolding on_security_changed keep_owner
  relay_kept inside level s high up =
      let v = Pause-IsHeld board host pause inside (opened s) up refl in
      rw (le→leb 2 level high) (v.pin, v.enabled, v.sec, refl, refl, refl)
