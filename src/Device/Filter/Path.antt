-- ===== src/Device/Filter/Path.antt =====
-- The data path leaves advertising alone.
use nrf_proxy.Base.{ℕ, ◌≡◌, refl, sym, subst, Bool, true, List, some, arith}
use nrf_proxy.Platform.{Platform}
use nrf_proxy.RingBuf.{RingBuf}
use nrf_proxy.Core.Command.{Cmd}
use nrf_proxy.Bridge.Api.{Arrivals}
use nrf_proxy.Device.State.{Host, Board, Device}
use nrf_proxy.Device.Relay.{relay_apply, relay_set}
use nrf_proxy.Device.Received.{nus_received}
use nrf_proxy.Device.Thread.{writer_step}
use nrf_proxy.Device.Frame.{received-view, writer_step-view}
use nrf_proxy.Device.Filter.{filtering, IsGuarded}

module _ (R : RingBuf) (p : Platform) (board : Board) (host : Host) where
  open R use {Ring}

  -- What the guard reads.
  abbrev guard : Device Ring → Bool × Bool × Bool
  guard s = (s.adv_active, filtering s.calls, s.locked_mode)

  guard-IsGuarded : (s t : Device Ring) → guard t ≡ guard s → IsGuarded s → IsGuarded t
  guard-IsGuarded s t e h = subst (λ (q : Bool × Bool × Bool). q.0 ≡ true → q.1 ≡ q.2) (sym e) h

  relay_set-guard : (s : Device Ring) (enable : Bool) → guard (relay_set board enable s) ≡ guard s
  unfolding relay_set relay_apply
  relay_set-guard s enable = ground arith

  pub received-IsGuarded :
      (bytes : List ℕ) (cmd : Cmd) (scratch : List ℕ) (arrivals : Arrivals) (s t : Device Ring)
      → nus_received R p board host bytes cmd scratch arrivals s ≡ some t
      → IsGuarded s
      → IsGuarded t
  received-IsGuarded bytes cmd scratch arrivals s t e = guard-IsGuarded s t (
      received-view R p board host guard (λ s b. refl) (λ s bytes err. refl) relay_set-guard bytes
        cmd scratch arrivals s t e)

  pub writer_step-IsGuarded : (s : Device Ring) → IsGuarded s → IsGuarded (writer_step R p host s)
  writer_step-IsGuarded s = guard-IsGuarded s (writer_step R p host s) (
      writer_step-view R p board host guard (λ s b. refl) (λ s bytes err. refl)
        (λ s phase refs buf. refl) s)
