-- ===== src/Device/Panel/Path.antt =====
-- The data path leaves the status LEDs alone.
use nrf_proxy.Base.{ℕ, ◌≡◌, refl, Bool, List, some, arith}
use nrf_proxy.Platform.{Platform}
use nrf_proxy.RingBuf.{RingBuf}
use nrf_proxy.Core.Command.{Cmd}
use nrf_proxy.Bridge.Api.{Arrivals}
use nrf_proxy.Device.State.{Host, Board, Device}
use nrf_proxy.Device.Relay.{relay_apply, relay_set}
use nrf_proxy.Device.Received.{nus_received}
use nrf_proxy.Device.Thread.{writer_step}
use nrf_proxy.Device.Frame.{received-view, writer_step-view}
use nrf_proxy.Device.Panel.{panel}

module _ (R : RingBuf) (p : Platform) (board : Board) (host : Host) where
  open R use {Ring}

  relay_set-panel : (s : Device Ring) (enable : Bool) → panel (relay_set board enable s) ≡ panel s
  unfolding relay_set relay_apply
  relay_set-panel s enable = ground arith

  pub received-panel :
      (bytes : List ℕ) (cmd : Cmd) (scratch : List ℕ) (arrivals : Arrivals) (s t : Device Ring)
      → nus_received R p board host bytes cmd scratch arrivals s ≡ some t
      → panel t ≡ panel s
  received-panel =
      received-view R p board host panel (λ s b. refl) (λ s bytes err. refl) relay_set-panel

  pub writer_step-panel : (s : Device Ring) → panel (writer_step R p host s) ≡ panel s
  writer_step-panel =
      writer_step-view R p board host panel (λ s b. refl) (λ s bytes err. refl)
        (λ s phase refs buf. refl)
