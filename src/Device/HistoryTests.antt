-- ===== src/Device/HistoryTests.antt =====
-- Whole histories of the device at concrete steps.
use nrf_proxy.Base.{ℕ, ◌≡◌, refl, ◌⊎◌, inl, true, false, some, List, [], ◌∷◌, replicate}
use nrf_proxy.Platform.{fired}
use nrf_proxy.RingBuf.Fifo.{Fifo, fifo}
use nrf_proxy.Bridge.Samples.{driver_calm}
use nrf_proxy.Bridge.Recovery.{armed}
use nrf_proxy.Core.Command.{Kind, cleared}
use nrf_proxy.Core.Command.Packets.{relay_packet, parse-plain}
use nrf_proxy.Device.Phase.{writer_refs}
use nrf_proxy.Device.Leds.{set_led, set_status_leds}
use nrf_proxy.Device.Advertising.{adv_retry_handler}
use nrf_proxy.Device.Link.{on_connected, on_disconnected, on_recycled}
use nrf_proxy.Device.Received.{nus_received, act_on}
use nrf_proxy.Device.Commands.{act_parsed, gated}
use nrf_proxy.Device.System.{World, Steps, stay, andthen, link_made, link_lost, recycled, received}
use nrf_proxy.Device.Outsider.{Untouched}
use nrf_proxy.Device.Outsider.History.{outsider_gets_nothing}
use nrf_proxy.Device.WayBack.{IsUp, way_back}
use nrf_proxy.Device.Lifecycle.{Move, observed}
use nrf_proxy.Device.Lifecycle.Refine.{lifecycle_refines}
use nrf_proxy.Device.Samples.{board, host, reset, riding, riding-IsLinked, no_cmd, no_arrivals}

abbrev alone : World Fifo
alone = record { device = reset; recycling = false }

-- A phone connects, and commands the relay without pairing.
abbrev visited : World Fifo
visited = record { device = on_connected board host 0 reset; recycling = false }

unheeded :
    nus_received fifo driver_calm board host (relay_packet 1) no_cmd [] no_arrivals visited.device
    ≡ some visited.device
unfolding on_connected set_status_leds set_led
unheeded =
    gated fifo driver_calm board host (relay_packet 1) no_cmd [] no_arrivals visited.device refl

parked : writer_refs reset.writer ≡ 0
unfolding writer_refs
parked = refl

outsider_gets_nothing_example : Untouched reset visited.device
outsider_gets_nothing_example =
    outsider_gets_nothing fifo driver_calm board host alone visited refl parked
      (andthen alone visited visited
        (andthen alone alone visited (stay alone) (link_made reset false refl))
        (received visited.device visited.device false (relay_packet 1) no_cmd [] no_arrivals
          unheeded))
      ((tt, tt), tt)

-- The owner rides, the link ends, and the host recycles its object.
abbrev ride : World Fifo
ride = record { device = riding; recycling = false }

abbrev gone : World Fifo
gone = record { device = on_disconnected board host riding; recycling = true }

abbrev again : World Fifo
again = record { device = on_recycled board host gone.device; recycling = false }

way_back_example :
    IsUp gone.device
    ⊎ (armed gone.device.adv_retry_work ≡ true)
      × IsUp (adv_retry_handler board host (record gone.device { adv_retry_work = fired }))
    ⊎ (true ≡ true) × IsUp again.device
way_back_example =
    way_back fifo driver_calm board host ride gone (riding-IsLinked, inl refl)
      (andthen ride ride gone (stay ride) (link_lost riding false)) refl

lifecycle_refines_example : Move (observed gone.device) (observed again.device)
lifecycle_refines_example =
    lifecycle_refines fifo driver_calm board host ride gone again (riding-IsLinked, inl refl)
      (andthen ride ride gone (stay ride) (link_lost riding false)) (recycled gone.device true)

-- The owner sends a text and then cuts the relay.
abbrev text : List ℕ
text = 72 ∷ 105 ∷ []

abbrev told : World Fifo
told = record {
  device =
      act_on fifo driver_calm board host Kind.none_cmd (cleared no_cmd) text (replicate 20 0)
        no_arrivals riding;
  recycling = false;
}

said :
    nus_received fifo driver_calm board host text no_cmd (replicate 20 0) no_arrivals riding
    ≡ some told.device
said =
    act_parsed fifo driver_calm board host text no_cmd (replicate 20 0) no_arrivals riding
      (Kind.none_cmd, cleared no_cmd) refl (parse-plain text no_cmd (λ f. cc))

abbrev spoken : Steps fifo driver_calm board host ride told
spoken =
    andthen ride ride told (stay ride)
      (received riding told.device false text no_cmd (replicate 20 0) no_arrivals said)
