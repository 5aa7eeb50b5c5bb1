-- ===== src/Device/ThreadTests.antt =====
-- The writer thread on a concrete board, host and driver.
use nrf_proxy.Base.{
  ◌+◌, ◌++◌, ℕ, ◌≤◌, ◌≡◌, refl, ◌⊎◌, inl, inr, true, false, ◌&&◌, some, List, [], ◌∷◌, arith,
  replicate,
}
use nrf_proxy.RingBuf.Fifo.{Fifo, fifo}
use nrf_proxy.Bridge.Samples.{driver_calm, started}
use nrf_proxy.Bridge.Callback.{Event, uart_cb}
use nrf_proxy.Device.Phase.{Phase, writer_claimed}
use nrf_proxy.Device.State.{Device, Status}
use nrf_proxy.Device.Writer.{ble_write_round}
use nrf_proxy.Device.System.{World, stay, andthen, uart_event, link_lost, recycled}
use nrf_proxy.Device.Wakeups.{IsFed}
use nrf_proxy.Device.Handover.{no_lost_wakeup}
use nrf_proxy.Device.Undisturbed.{Turns}
use nrf_proxy.Device.Undisturbed.Rounds.{undisturbed_round}
use nrf_proxy.Core.Send.{proxy_send_result, proxy_nus_chunk_limit}
use nrf_proxy.Device.Sending.{delivered}
use nrf_proxy.Device.Lasting.{Lasting}
use nrf_proxy.Device.Delivery.{round_delivers}
use nrf_proxy.Platform.{Work}
use nrf_proxy.Core.Link.{proxy_should_start_adv}
use nrf_proxy.Bridge.Recovery.{armed}
use nrf_proxy.Device.Leds.{set_led, set_status_leds}
use nrf_proxy.Device.Relay.{relay_grace_start}
use nrf_proxy.Device.Advertising.{advertising_start}
use nrf_proxy.Device.Link.{on_security_changed, on_disconnected, on_recycled}
use nrf_proxy.Device.Pause.{graced, grace_fires, still}
use nrf_proxy.Device.Secured.{relay_kept}
use nrf_proxy.Device.Filter.{filtering}
use nrf_proxy.Device.Filter.History.{filtered_when_locked}
use nrf_proxy.Device.Boot.{identity_init, name_and_advertise}
use nrf_proxy.Device.Payload.{ad, payload_len, letters}
use nrf_proxy.Device.Payload.Air.{unit_on_air}
use nrf_proxy.Device.Panel.{panel, levels, IsLit}
use nrf_proxy.Device.Panel.History.{leds_tell}
use nrf_proxy.Device.Composition.{IsHealthy, bridge_contract_holds}
use nrf_proxy.Device.Samples.{board, host, reset, riding, riding-IsLinked, settled}

-- Bytes are waiting and the semaphore has been given.
abbrev given : World Fifo
given = record {
  device = record riding { bridge = record started { rx_ready = true } };
  recycling = false;
}

-- Two more bytes arrive.
abbrev arrived : World Fifo
arrived = record {
  device = record riding {
    bridge =
        (uart_cb fifo driver_calm (Event.rx_rdy (4 ∷ 5 ∷ []))
          (record started { rx_ready = true })).1;
  };
  recycling = false;
}

given-IsFed : IsFed fifo driver_calm host given.device
unfolding writer_claimed
given-IsFed = record { claims = refl; fed = inr refl }

no_lost_wakeup_example :
    (arrived.device.bridge.rx_ring.held ≡ []) ⊎ (arrived.device.bridge.rx_ready ≡ true)
no_lost_wakeup_example =
    no_lost_wakeup fifo driver_calm board host given arrived (λ tr. omega arith) given-IsFed
      (andthen given given arrived (stay given)
        (uart_event given.device false (Event.rx_rdy (4 ∷ 5 ∷ []))))
      refl

undisturbed_round_example :
    (t : Device Fifo) × (ble_write_round fifo driver_calm host 516 (replicate 512 0) given.device
      ≡ some t)
    × (t.bridge.rx_ring.held ≡ [])
    × (buf : List ℕ) × Turns fifo driver_calm host given.device
        (record t { writer = Phase.waiting; writer_buf = buf })
undisturbed_round_example =
    undisturbed_round fifo driver_calm host 0 settled given.device (λ tr. omega arith) refl refl
      refl

never_dropped : Lasting host
unfolding proxy_send_result
never_dropped tr bytes h = cc

short_notifications : proxy_nus_chunk_limit 23 ≤ 512
unfolding proxy_nus_chunk_limit
short_notifications = omega arith

round_delivers_example :
    (t : Device Fifo) × (ble_write_round fifo driver_calm host 600 (replicate 512 0) riding
      ≡ some t)
    × (delivered t.calls ≡ 9 ∷ 8 ∷ [])
    × (t.bridge.rx_ring.held ≡ [])
round_delivers_example =
    round_delivers fifo driver_calm board host 0 600 settled (replicate 512 0) riding never_dropped
      (λ tr. omega arith) (λ tr. short_notifications) (refl, refl, refl) (omega arith)

-- The owner comes back within the grace window, and the grace timer fires inside the callback.
abbrev returning : Device Fifo
returning = record riding { link_secure = false; relay_grace_work = Work.rescheduled 60000 }

relay_kept_example :
    let t = on_security_changed board host (λ s. graced board host s) 2 0 returning in
    (t.relay_pin ≡ true)
    × (t.relay_enabled ≡ true)
    × (t.link_secure ≡ true)
    × (armed t.relay_grace_work ≡ false)
    × (armed t.security_timeout_work ≡ false)
    × (t.bridge.rx_ready ≡ true)
relay_kept_example =
    relay_kept board host (λ s. graced board host s) (grace_fires (λ s. s) still) 2 returning
      (omega arith) refl

-- The link is lost, and its object recycled: the advertiser starts again.
abbrev lost : World Fifo
lost = record { device = on_disconnected board host riding; recycling = true }

abbrev open_again : World Fifo
open_again = record { device = on_recycled board host lost.device; recycling = false }

abbrev riding_world : World Fifo
riding_world = record { device = riding; recycling = false }

filtered_when_locked_example : filtering open_again.device.calls ≡ open_again.device.locked_mode
unfolding on_disconnected relay_grace_start on_recycled advertising_start proxy_should_start_adv
    set_status_leds set_led
filtered_when_locked_example =
    filtered_when_locked fifo driver_calm board host riding_world open_again
      (riding-IsLinked, inl refl) (λ up. cc)
      (andthen riding_world lost open_again
        (andthen riding_world riding_world lost (stay riding_world) (link_lost riding false))
        (recycled lost.device true))
      refl

unit_on_air_example :
    (u : Device Fifo) × (identity_init board host reset ≡ some u)
    × (let t = name_and_advertise fifo driver_calm board host false u in
        (ad t
          ≡ record { kind = 0x01; bytes = 0x06 ∷ [] }
            ∷ record { kind = 0x09; bytes = board.device_name ++ letters 6 5 }
            ∷ record { kind = 0xff; bytes = 255 ∷ 255 ∷ 78 ∷ 80 ∷ 1 ∷ 2 ∷ 3 ∷ 4 ∷ [] }
            ∷ [])
        × (payload_len (ad t) ≡ 20 + 2))
unit_on_air_example =
    unit_on_air fifo driver_calm board host false 1 2 3 4 5 6 (7 ∷ 8 ∷ []) 8 reset refl refl
      (omega arith) (record { addr = refl; mfg_id = refl }) refl refl (omega arith)

given-IsHealthy : IsHealthy fifo driver_calm board host given.device.bridge
given-IsHealthy = record {
  order = refl;
  blocks = refl;
  counts = (refl, refl, refl);
  running = record { flag = refl; going = inr (inl refl) };
  receiving = inl refl;
}

bridge_contract_holds_example : IsHealthy fifo driver_calm board host arrived.device.bridge
bridge_contract_holds_example =
    bridge_contract_holds fifo driver_calm board host given arrived given-IsHealthy (
      andthen given given arrived (stay given)
        (uart_event given.device false (Event.rx_rdy (4 ∷ 5 ∷ []))))

leds_tell_example :
    IsLit board (panel lost.device)
    × ((false ≡ false)
        ⊎ ((panel lost.device).pins ≡ levels board Status.connected lost.device.adv_blink_on))
    × ((lost.device.adv_active ≡ false)
        ⊎ (lost.device.connected_led ≡ (false && lost.device.advertising_led))
          × (lost.device.error_led ≡ false)
          × ((true ≡ false) ⊎ (armed lost.device.adv_blink_work ≡ true)))
unfolding on_disconnected relay_grace_start
leds_tell_example =
    leds_tell fifo driver_calm board host riding_world lost (riding-IsLinked, inl refl)
      (record { shown = refl; blinking = λ e. absurd (cc e) })
      (andthen riding_world riding_world lost (stay riding_world) (link_lost riding false))
