-- ===== src/Device/System.antt =====
-- The device in its surroundings: what the Bluetooth host, the timers, the UART driver and the
-- writer thread do to it, in any order: the writer's steps are single actions, with anything between
-- them. A guard of a step is documented behaviour of the host: one connection at a time,
-- and link events only for the link that is up. A timer may run its handler at any time, since a
-- cancelled item whose handler has started still runs it.
use nrf_proxy.Base.{ℕ, ◌<◌, ◌≡◌, Bool, true, false, some, List}
use nrf_proxy.Platform.{Platform, fired}
use nrf_proxy.RingBuf.{RingBuf}
use nrf_proxy.Core.Command.{Cmd}
use nrf_proxy.Bridge.Api.{Arrivals}
use nrf_proxy.Bridge.Receive.{retry_handler}
use nrf_proxy.Bridge.Callback.{Event, uart_cb}
use nrf_proxy.Device.State.{Host, Board, Device}
use nrf_proxy.Device.Leds.{adv_blink_handler}
use nrf_proxy.Device.Relay.{relay_grace_handler}
use nrf_proxy.Device.Advertising.{adv_retry_handler, adv_slow_handler}
use nrf_proxy.Device.Link.{
  security_timeout_handler, on_security_changed, pairing_complete, on_connected, on_disconnected,
  on_recycled,
}
use nrf_proxy.Device.Pause.{Pause}
use nrf_proxy.Device.Received.{nus_received}
use nrf_proxy.Device.Thread.{writer_step}

-- `recycling`: the host holds a connection object that it has yet to recycle.
pub record World (Ring : Type 0) : Type 0 where
  pub device : Device Ring
  pub recycling : Bool

module _ (R : RingBuf) (p : Platform) (board : Board) (host : Host) where
  open R use {Ring}

  -- What may happen between the failed slow start and the section after it: nothing, a connection,
  -- or the recycling of the object that the stopped advertiser held.
  pub data Gap : (Device Ring → Device Ring) → Type 0 where
    quiet : Gap (λ s. s)
    connects : Gap (on_connected board host 0)
    recycles : Gap (on_recycled board host)

  pub data Step : World Ring → World Ring → Type 0 where
    link_made :
        (s : Device Ring) (w : Bool)
        → s.current_conn ≡ false
        → Step
            (record { device = s; recycling = w })
            (record { device = on_connected board host 0 s; recycling = false })
    link_failed :
        (s : Device Ring) (w : Bool) (err : ℕ)
        → 0 < err
        → Step
            (record { device = s; recycling = w })
            (record { device = on_connected board host err s; recycling = true })
    link_lost :
        (s : Device Ring) (w : Bool)
        → Step
            (record { device = s; recycling = w })
            (record { device = on_disconnected board host s; recycling = true })
    recycled :
        (s : Device Ring) (w : Bool)
        → Step
            (record { device = s; recycling = w })
            (record { device = on_recycled board host s; recycling = false })
    secured :
        (s : Device Ring) (w : Bool) (pause : Device Ring → Device Ring) (level err : ℕ)
        → Pause board host pause
        → s.current_conn ≡ true
        → Step
            (record { device = s; recycling = w })
            (record { device = on_security_changed board host pause level err s; recycling = w })
    paired :
        (s : Device Ring) (w : Bool) (bonded : Bool)
        → s.current_conn ≡ true
        → Step
            (record { device = s; recycling = w })
            (record { device = pairing_complete board host bonded s; recycling = w })
    received :
        (s t : Device Ring) (w : Bool) (bytes : List ℕ) (cmd : Cmd) (scratch : List ℕ)
        (arrivals : Arrivals)
        → nus_received R p board host bytes cmd scratch arrivals s ≡ some t
        → Step (record { device = s; recycling = w }) (record { device = t; recycling = w })
    writer_runs :
        (s : Device Ring) (w : Bool)
        → Step
            (record { device = s; recycling = w })
            (record { device = writer_step R p host s; recycling = w })
    uart_event :
        (s : Device Ring) (w : Bool) (e : Event)
        → Step
            (record { device = s; recycling = w })
            (record { device = record s { bridge = (uart_cb R p e s.bridge).1 }; recycling = w })
    rx_retry_due :
        (s : Device Ring) (w : Bool)
        → Step
            (record { device = s; recycling = w })
            (record {
              device = record s {
                bridge = (retry_handler p (record s.bridge { retry_work = fired })).1;
              };
              recycling = w;
            })
    blink_due :
        (s : Device Ring) (w : Bool)
        → Step
            (record { device = s; recycling = w })
            (record {
              device = adv_blink_handler board (record s { adv_blink_work = fired });
              recycling = w;
            })
    slow_due :
        (s : Device Ring) (w : Bool) (gap : Device Ring → Device Ring)
        → Gap gap
        → Step
            (record { device = s; recycling = w })
            (record {
              device = adv_slow_handler board host gap (record s { adv_slow_work = fired });
              recycling = w;
            })
    retry_due :
        (s : Device Ring) (w : Bool)
        → Step
            (record { device = s; recycling = w })
            (record {
              device = adv_retry_handler board host (record s { adv_retry_work = fired });
              recycling = w;
            })
    grace_due :
        (s : Device Ring) (w : Bool)
        → Step
            (record { device = s; recycling = w })
            (record {
              device = relay_grace_handler board (record s { relay_grace_work = fired });
              recycling = w;
            })
    watchdog_due :
        (s : Device Ring) (w : Bool)
        → Step
            (record { device = s; recycling = w })
            (record {
              device =
                  security_timeout_handler board host (record s { security_timeout_work = fired });
              recycling = w;
            })

  -- Every sequence of steps.
  pub data Steps : World Ring → World Ring → Type 0 where
    stay : (a : World Ring) → Steps a a
    andthen : (a b c : World Ring) → Steps a b → Step b c → Steps a c

  pub Steps-keeps :
      (P : World Ring → Type 0)
      → ((a b : World Ring) → Step a b → P a → P b)
      → (a b : World Ring) → Steps a b
      → P a
      → P b
  Steps-keeps P keep _ _ (stay a) h = h
  Steps-keeps P keep _ _ (andthen a b c steps last) h =
      keep b c last (Steps-keeps P keep a b steps h)
