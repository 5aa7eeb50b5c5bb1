-- ===== src/Device/WayBack.antt =====
-- A device that nobody can reach is one handler from being reachable.
use nrf_proxy.Base.{◌≡◌, ◌⊎◌, inl, inr, true, arith}
use nrf_proxy.Base.Int.{pos, ◌==ℤ◌}
use nrf_proxy.Platform.{Platform, fired}
use nrf_proxy.RingBuf.{RingBuf}
use nrf_proxy.Core.Link.{proxy_should_start_adv}
use nrf_proxy.Bridge.Recovery.{armed}
use nrf_proxy.Device.State.{Host, Board, Device}
use nrf_proxy.Device.Leds.{set_led, set_status_leds}
use nrf_proxy.Device.Advertising.{adv_params_fast, advertising_start, adv_retry_handler}
use nrf_proxy.Device.Link.{on_recycled}
use nrf_proxy.Device.Safety.{IsSound, Steps-IsSound}
use nrf_proxy.Device.System.{World, Steps}

-- The host takes the next request to advertise.
abbrev pub Accepts : {Ring : Type 0} → Host → Device Ring → Type 0
Accepts host s = (host.adv_start_err s.calls (adv_params_fast s) ==ℤ pos 0) ≡ true

-- A link or an advertiser is up.
abbrev pub IsUp : {Ring : Type 0} → Device Ring → Type 0
IsUp s = (s.current_conn ≡ true) ⊎ (s.adv_active ≡ true)

module _ {Ring : Type 0} (board : Board) (host : Host) where
  started-IsUp : (s : Device Ring) → Accepts host s → IsUp (advertising_start board host s)
  unfolding advertising_start proxy_should_start_adv set_status_leds set_led
  started-IsUp s taken = ground (arith, taken)

  retried-IsUp :
      (s : Device Ring)
      → Accepts host s
      → IsUp (adv_retry_handler board host (record s { adv_retry_work = fired }))
  unfolding adv_retry_handler
  retried-IsUp s takes = started-IsUp (record s { adv_retry_work = fired }) takes

  recycled-IsUp : (s : Device Ring) → Accepts host s → IsUp (on_recycled board host s)
  unfolding on_recycled
  recycled-IsUp s takes = started-IsUp s takes

module _ (R : RingBuf) (p : Platform) (board : Board) (host : Host) where
  open R use {Ring}

  -- From a state that meets the invariant, wherever a history leads, whatever failed on the way,
  -- there is a way back if the host takes the next request to advertise: a link or an advertiser is
  -- up; or the retry timer is armed, and its handler brings one up; or the host has a connection
  -- object to recycle, and that callback does.
  pub way_back :
      (a b : World Ring)
      → IsSound R p board host a
      → Steps R p board host a b
      → Accepts host b.device
      → let s = b.device in
        IsUp s
        ⊎ (armed s.adv_retry_work ≡ true)
          × IsUp (adv_retry_handler board host (record s { adv_retry_work = fired }))
        ⊎ (b.recycling ≡ true) × IsUp (on_recycled board host s)
  way_back a b h steps takes = elim (Steps-IsSound R p board host a b steps h).1 [
    | inl up ↦ inl (inl up)
    | inr (inl on) ↦ inl (inr on)
    | inr (inr (inl due)) ↦ inr (inl (due, retried-IsUp board host b.device takes))
    | inr (inr (inr waits)) ↦ inr (inr (waits, recycled-IsUp board host b.device takes))
  ]
