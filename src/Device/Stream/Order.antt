-- ===== src/Device/Stream/Order.antt =====
-- The receive stream over every history of the device.
use nrf_proxy.Base.{◌<◌, ◌^◌, inl, inr, sym, subst}
use nrf_proxy.Platform.{Platform}
use nrf_proxy.RingBuf.{RingBuf}
use nrf_proxy.Bridge.Growth.{stored}
use nrf_proxy.Device.State.{Host, Board, Calls}
use nrf_proxy.Device.Effects.{Step-cases}
use nrf_proxy.Device.Wakeups.{IsFed}
use nrf_proxy.Device.Handover.{Aside-Fills, Feeds-Fills, Step-IsFed}
use nrf_proxy.Device.Stream.{Reads, InStream, Grows-InStream, writer_step-InStream}
use nrf_proxy.Device.System.{World, Step, Steps, Steps-keeps}

module _ (R : RingBuf) (p : Platform) (board : Board) (host : Host) where
  open R use {Ring, contents}

  pub Step-InStream :
      (a b : World Ring)
      → Step R p board host a b
      → IsFed R p host a.device
      → InStream R p host a.device
      → InStream R p host b.device
  Step-InStream a b step fed v = elim (Step-cases R p board host a b step) [
    | inl turn ↦
        subst (InStream R p host) (sym turn) (writer_step-InStream R p host a.device fed.claims v)
    | inr (inl aside) ↦
        let (same, grown) = Aside-Fills R p board host a.device b.device aside in
        Grows-InStream R p host a.device b.device same grown v
    | inr (inr feeds) ↦
        let (same, grown) = Feeds-Fills R p board host a.device b.device feeds in
        Grows-InStream R p host a.device b.device same grown v
  ]

  -- From a state where the ring, the writer and the stream of received bytes agree, over every
  -- history in which the writer's steps mix with interrupts, callbacks and timers in any order: the
  -- receive ring holds the last of the bytes that it took, in order; a chunk that the writer has
  -- claimed is the oldest of them; and what the writer is sending is one piece of the stream, older
  -- than all bytes in the ring. The MTU fits 16 bits.
  pub received_in_order :
      (a b : World Ring)
      → ((tr : Calls) → host.att_mtu tr < 2 ^ 16)
      → IsFed R p host a.device
      → Reads a.device.writer (stored a.device.bridge.calls) (contents a.device.bridge.rx_ring)
      → Steps R p board host a b
      → Reads b.device.writer (stored b.device.bridge.calls) (contents b.device.bridge.rx_ring)
  received_in_order a b mtu fed v steps =
      (Steps-keeps R p board host (λ c. IsFed R p host c.device × InStream R p host c.device)
        (λ c d step k. (Step-IsFed R p board host mtu c d step k.0, Step-InStream c d step k.0 k.1))
        a b steps (fed, v)).1
