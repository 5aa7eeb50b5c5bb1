-- ===== src/Device/StreamTests.antt =====
-- The receive stream and the writer thread at a concrete history.
use nrf_proxy.Base.{ℕ, ◌≡◌, refl, inl, inr, true, false, some, List, [], ◌∷◌, arith, replicate}
use nrf_proxy.RingBuf.Fifo.{Fifo, fifo}
use nrf_proxy.Platform.{Call}
use nrf_proxy.Bridge.Samples.{driver_calm, started}
use nrf_proxy.Bridge.State.{log_call}
use nrf_proxy.Bridge.Callback.{Event, uart_cb}
use nrf_proxy.Bridge.Growth.{stored}
use nrf_proxy.Device.Phase.{writer_claimed}
use nrf_proxy.Device.Thread.{writer_step}
use nrf_proxy.Device.System.{World, Steps, stay, andthen, received, uart_event, writer_runs}
use nrf_proxy.Device.Wakeups.{IsFed}
use nrf_proxy.Device.Stream.{Reads}
use nrf_proxy.Device.Stream.Order.{received_in_order}
use nrf_proxy.Core.Command.{Kind, cleared}
use nrf_proxy.Core.Command.Packets.{parse-plain}
use nrf_proxy.Device.Received.{nus_received, act_on}
use nrf_proxy.Device.Commands.{act_parsed}
use nrf_proxy.Device.Aside.{sends}
use nrf_proxy.Device.Downlink.{Accounts, nothing}
use nrf_proxy.Device.Downlink.History.{Lossy, downlink_tells}
use nrf_proxy.Device.Samples.{board, host, riding, no_cmd, no_arrivals}

-- The ring took the two bytes that it holds, and the semaphore has been given.
abbrev seen : World Fifo
seen = record {
  device = record riding {
    bridge = record (log_call (Call.rx_put (9 ∷ 8 ∷ []) 2) started) { rx_ready = true };
  };
  recycling = false;
}

-- Two more bytes arrive, and the writer wakes.
abbrev fuller : World Fifo
fuller = record {
  device = record seen.device {
    bridge = (uart_cb fifo driver_calm (Event.rx_rdy (4 ∷ 5 ∷ [])) seen.device.bridge).1;
  };
  recycling = false;
}

abbrev woken : World Fifo
woken = record { device = writer_step fifo driver_calm host fuller.device; recycling = false }

seen-IsFed : IsFed fifo driver_calm host seen.device
unfolding writer_claimed
seen-IsFed = record { claims = refl; fed = inr refl }

received_in_order_example :
    Reads woken.device.writer (stored woken.device.bridge.calls) woken.device.bridge.rx_ring.held
received_in_order_example =
    received_in_order fifo driver_calm board host seen woken (λ tr. omega arith) seen-IsFed
      ([], refl)
      (andthen seen fuller woken
        (andthen seen seen fuller (stay seen)
          (uart_event seen.device false (Event.rx_rdy (4 ∷ 5 ∷ []))))
        (writer_runs fuller.device false))

-- A phone sends a text, two more bytes arrive, and the writer wakes.
abbrev text : List ℕ
text = 72 ∷ 105 ∷ []

abbrev told : World Fifo
told = record {
  device =
      act_on fifo driver_calm board host Kind.none_cmd (cleared no_cmd) text (replicate 20 0)
        no_arrivals seen.device;
  recycling = false;
}

said :
    nus_received fifo driver_calm board host text no_cmd (replicate 20 0) no_arrivals seen.device
    ≡ some told.device
said =
    act_parsed fifo driver_calm board host text no_cmd (replicate 20 0) no_arrivals seen.device
      (Kind.none_cmd, cleared no_cmd) refl (parse-plain text no_cmd (λ f. cc))

abbrev filled : World Fifo
filled = record {
  device = record told.device {
    bridge = (uart_cb fifo driver_calm (Event.rx_rdy (4 ∷ 5 ∷ [])) told.device.bridge).1;
  };
  recycling = false;
}

abbrev roused : World Fifo
roused = record { device = writer_step fifo driver_calm host filled.device; recycling = false }

abbrev evening : Steps fifo driver_calm board host seen roused
evening =
    andthen seen filled roused
      (andthen seen told filled
        (andthen seen seen told (stay seen)
          (received seen.device told.device false text no_cmd (replicate 20 0) no_arrivals said))
        (uart_event told.device false (Event.rx_rdy (4 ∷ 5 ∷ []))))
      (writer_runs filled.device false)

downlink_tells_example :
    Accounts
      (Lossy fifo driver_calm board host seen roused evening)
      (text ∷ [])
      roused.device.writer
      (sends roused.device.calls)
      (stored roused.device.bridge.calls)
      roused.device.bridge.rx_ring.held
downlink_tells_example =
    downlink_tells fifo driver_calm board host seen roused evening (λ tr. omega arith) seen-IsFed
      ([], refl) ([], [], [], nothing, refl, inl refl, refl)
