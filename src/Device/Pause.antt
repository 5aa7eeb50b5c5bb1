-- ===== src/Device/Pause.antt =====
-- The timers that may run while a callback of the Bluetooth host is between two of its calls.
use nrf_proxy.Base.{◌≡◌, refl, inl, true, arith}
use nrf_proxy.Platform.{fired}
use nrf_proxy.Device.State.{Host, Board, Device}
use nrf_proxy.Device.Leds.{adv_blink_handler}
use nrf_proxy.Device.Relay.{relay_apply, relay_grace_handler}
use nrf_proxy.Device.Link.{ref_unsecured_conn, security_timeout_handler}
use nrf_proxy.Device.Invariant.{IsLinked, Same-IsLinked}
use nrf_proxy.Device.Keeps.{grace-IsLinked, watchdog-IsLinked, blink-Same}
use nrf_proxy.Device.Aside.{Aside, grace-Aside, watchdog-Aside, blink-Aside}
use nrf_proxy.Device.Filter.{IsGuarded, grace-IsGuarded, watchdog-IsGuarded, blink-IsGuarded}

module _ {Ring : Type 0} (board : Board) (host : Host) where
  abbrev pub graced : Device Ring → Device Ring
  graced s = relay_grace_handler board (record s { relay_grace_work = fired })

  abbrev pub watched : Device Ring → Device Ring
  watched s = security_timeout_handler board host (record s { security_timeout_work = fired })

  abbrev pub blinked : Device Ring → Device Ring
  blinked s = adv_blink_handler board (record s { adv_blink_work = fired })

  -- The handlers that run meanwhile, in order.
  pub data Pause : (Device Ring → Device Ring) → Type 0 where
    still : Pause (λ s. s)
    grace_fires : (f : Device Ring → Device Ring) → Pause f → Pause (λ s. graced (f s))
    watchdog_fires : (f : Device Ring → Device Ring) → Pause f → Pause (λ s. watched (f s))
    blink_fires : (f : Device Ring → Device Ring) → Pause f → Pause (λ s. blinked (f s))

  pub Pause-IsLinked :
      (f : Device Ring → Device Ring)
      → Pause f
      → (s : Device Ring) → IsLinked board s
      → IsLinked board (f s)
  Pause-IsLinked _ still s v = v
  Pause-IsLinked _ (grace_fires f p) s v = grace-IsLinked board host (f s) (Pause-IsLinked f p s v)
  Pause-IsLinked _ (watchdog_fires f p) s v =
      watchdog-IsLinked board host (f s) (Pause-IsLinked f p s v)
  Pause-IsLinked _ (blink_fires f p) s v =
      Same-IsLinked board (f s) (blinked (f s)) (blink-Same board host (f s))
        (Pause-IsLinked f p s v)

  Aside-trans : (s t u : Device Ring) → Aside s t → Aside t u → Aside s u
  Aside-trans s t u a b = ground arith

  pub Pause-Aside : (f : Device Ring → Device Ring) → Pause f → (s : Device Ring) → Aside s (f s)
  Pause-Aside _ still s = (refl, inl refl, refl)
  Pause-Aside _ (grace_fires f p) s =
      Aside-trans s (f s) (graced (f s)) (Pause-Aside f p s) (grace-Aside board host (f s))
  Pause-Aside _ (watchdog_fires f p) s =
      Aside-trans s (f s) (watched (f s)) (Pause-Aside f p s) (watchdog-Aside board host (f s))
  Pause-Aside _ (blink_fires f p) s =
      Aside-trans s (f s) (blinked (f s)) (Pause-Aside f p s) (blink-Aside board host (f s))

  pub Pause-IsGuarded :
      (f : Device Ring → Device Ring) → Pause f → (s : Device Ring) → IsGuarded s → IsGuarded (f s)
  Pause-IsGuarded _ still s h = h
  Pause-IsGuarded _ (grace_fires f p) s h =
      grace-IsGuarded board host (f s) (Pause-IsGuarded f p s h)
  Pause-IsGuarded _ (watchdog_fires f p) s h =
      watchdog-IsGuarded board host (f s) (Pause-IsGuarded f p s h)
  Pause-IsGuarded _ (blink_fires f p) s h =
      blink-IsGuarded board host (f s) (Pause-IsGuarded f p s h)

  -- On an encrypted link none of them changes the link or the relay.
  pub record IsHeld (s t : Device Ring) : Type 0 where
    pub up : t.current_conn ≡ true
    pub sec : t.link_secure ≡ true
    pub pin : t.relay_pin ≡ s.relay_pin
    pub enabled : t.relay_enabled ≡ s.relay_enabled

  grace-IsHeld :
      (s t : Device Ring)
      → IsHeld s t
      → IsHeld s (relay_grace_handler board (record t { relay_grace_work = fired }))
  unfolding relay_grace_handler relay_apply
  grace-IsHeld s t v = ground arith

  watchdog-IsHeld :
      (s t : Device Ring)
      → IsHeld s t
      → IsHeld s (security_timeout_handler board host (record t { security_timeout_work = fired }))
  unfolding security_timeout_handler ref_unsecured_conn
  watchdog-IsHeld s t v = ground arith

  blink-IsHeld :
      (s t : Device Ring)
      → IsHeld s t
      → IsHeld s (adv_blink_handler board (record t { adv_blink_work = fired }))
  unfolding adv_blink_handler
  blink-IsHeld s t v = ground arith

  pub Pause-IsHeld :
      (f : Device Ring → Device Ring)
      → Pause f
      → (s : Device Ring) → s.current_conn ≡ true
      → s.link_secure ≡ true
      → IsHeld s (f s)
  Pause-IsHeld _ still s up sec = record { up = up; sec = sec; pin = refl; enabled = refl }
  Pause-IsHeld _ (grace_fires f p) s up sec = grace-IsHeld s (f s) (Pause-IsHeld f p s up sec)
  Pause-IsHeld _ (watchdog_fires f p) s up sec = watchdog-IsHeld s (f s) (Pause-IsHeld f p s up sec)
  Pause-IsHeld _ (blink_fires f p) s up sec = blink-IsHeld s (f s) (Pause-IsHeld f p s up sec)
