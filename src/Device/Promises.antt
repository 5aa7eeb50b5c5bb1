-- ===== src/Device/Promises.antt =====
-- What src/main.c promises: of the relay, of being reachable, of unencrypted links.
use nrf_proxy.Base.{◌+◌, ◌≡◌, sym, ◌∙◌, ◌⊎◌, true, false, if◌then◌else◌}
use nrf_proxy.Platform.{Platform}
use nrf_proxy.RingBuf.{RingBuf}
use nrf_proxy.Bridge.Recovery.{armed}
use nrf_proxy.Device.Phase.{writer_refs}
use nrf_proxy.Device.State.{Host, Board}
use nrf_proxy.Device.Invariant.{IsReachable, dropping}
use nrf_proxy.Device.System.{World, Steps}
use nrf_proxy.Device.Safety.{IsSound, Steps-IsSound}

module _ (R : RingBuf) (p : Platform) (board : Board) (host : Host) where
  open R use {Ring}

  -- From a state that meets the invariant, as the boot leaves it, over every history of link
  -- events, timers, received data and UART activity: while the relay's pin is driven, the owner's
  -- encrypted link is up or the grace timer runs.
  pub relay_needs_owner :
      (a b : World Ring)
      → IsSound R p board host a
      → Steps R p board host a b
      → b.device.relay_pin ≡ true
      → (b.device.current_conn ≡ true) × (b.device.link_secure ≡ true)
        ⊎ (armed b.device.relay_grace_work ≡ true)
  relay_needs_owner a b h steps on =
      let v = (Steps-IsSound R p board host a b steps h).0 in v.held (sym v.pin ∙ on)

  -- From a state that meets the invariant, over every history the device stays reachable: a link or
  -- an advertiser is up, or advertising is about to be retried, or the host holds a connection
  -- object whose recycling starts it.
  pub always-IsReachable :
      (a b : World Ring)
      → IsSound R p board host a
      → Steps R p board host a b
      → IsReachable board b.recycling b.device
  always-IsReachable a b h steps = (Steps-IsSound R p board host a b steps h).1

  -- From a state that meets the invariant, over every history a link that is not encrypted has its
  -- watchdog armed, or a disconnection has been asked for since the link came up.
  pub unencrypted_is_watched :
      (a b : World Ring)
      → IsSound R p board host a
      → Steps R p board host a b
      → b.device.current_conn ≡ true
      → b.device.link_secure ≡ false
      → (armed b.device.security_timeout_work ≡ true) ⊎ (dropping b.device.calls ≡ true)
  unencrypted_is_watched a b h steps = (Steps-IsSound R p board host a b steps h).0.watched

  -- From a state that meets the invariant, over every history the file holds one reference to the
  -- connection object for a link that is up and one for a writer thread that works with it, and no
  -- other; only a link that is up counts as encrypted, and no advertiser runs beside a link.
  pub one_connection :
      (a b : World Ring)
      → IsSound R p board host a
      → Steps R p board host a b
      → (b.device.conn_refs
          ≡ (if b.device.current_conn then 1 else 0) + writer_refs b.device.writer)
        × (b.device.link_secure ≡ true → b.device.current_conn ≡ true)
        × (b.device.current_conn ≡ true → b.device.adv_active ≡ false)
  one_connection a b h steps =
      let v = (Steps-IsSound R p board host a b steps h).0 in (v.counted, v.secure, v.one)
