-- ===== src/Bridge/Init.antt =====
-- What `uart_bridge_init` leaves, from the statics as the linker leaves them.
use nrf_proxy.Base.{◌≡◌, refl, inl, inr, sym, ap, ◌∙◌, false, true, [], ◌++◌, arith}
use nrf_proxy.Base.Int.{pos, ◌==ℤ◌}
use nrf_proxy.Platform.{Platform}
use nrf_proxy.RingBuf.{RingBuf}
use nrf_proxy.Bridge.State.{Bridge}
use nrf_proxy.Bridge.Receive.{start_rx}
use nrf_proxy.Bridge.Api.{uart_bridge_init}
use nrf_proxy.Bridge.Growth.{stored}
use nrf_proxy.Bridge.Pipeline.{handed, accepted, InOrder}
use nrf_proxy.Bridge.Ledger.{Balanced}
use nrf_proxy.Bridge.Drops.{Counted}
use nrf_proxy.Bridge.Order.{IsRunning}
use nrf_proxy.Bridge.Recovery.{IsReceiving}

module _ (R : RingBuf) (p : Platform) where
  open R use {Ring, contents, pending}

  -- Nothing has happened yet.
  pub record IsFresh (s : Bridge Ring) : Type 0 where
    pub unused : s.calls ≡ []
    pub no_input : contents s.rx_ring ≡ []
    pub no_output : contents s.tx_ring ≡ []
    pub unclaimed : pending s.rx_ring ≡ 0
    pub counters : (s.drops_rx ≡ 0) × (s.drops_tx ≡ 0) × (s.tx_len ≡ 0)
    pub flag : s.reconfiguring ≡ false

  -- The rings, the counters and the streams are as before.
  init-same :
      (s : Bridge Ring)
      → let t = (uart_bridge_init R p s).1 in
        (t.rx_ring ≡ s.rx_ring)
        × (t.tx_ring ≡ s.tx_ring)
        × (stored t.calls ≡ stored s.calls)
        × (handed t.calls ≡ handed s.calls)
        × (accepted t.calls ≡ accepted s.calls)
        × (t.reconfiguring ≡ s.reconfiguring)
  unfolding uart_bridge_init start_rx
  init-same s = ground arith

  init-Balanced : (s : Bridge Ring) → Balanced R p s → Balanced R p (uart_bridge_init R p s).1
  unfolding uart_bridge_init start_rx
  init-Balanced s h = ground arith

  init-Counted : (s : Bridge Ring) → Counted R p s → Counted R p (uart_bridge_init R p s).1
  unfolding uart_bridge_init start_rx
  init-Counted s h = ground arith

  -- Success means that reception is live.
  pub init-IsReceiving :
      (s : Bridge Ring)
      → ((uart_bridge_init R p s).0 ==ℤ pos 0) ≡ true
      → IsReceiving R p (uart_bridge_init R p s).1
  unfolding uart_bridge_init start_rx
  init-IsReceiving s ok = ground arith

  -- A bridge that keeps its promises, but for reception, with nothing received.
  pub record IsBegun (t : Bridge Ring) : Type 0 where
    pub order : InOrder R p t
    pub blocks : Balanced R p t
    pub counts : Counted R p t
    pub running : IsRunning R p t
    pub empty : contents t.rx_ring ≡ []
    pub unclaimed : pending t.rx_ring ≡ 0
    pub unheard : stored t.calls ≡ []

  pub init-IsBegun : (s : Bridge Ring) → IsFresh s → IsBegun (uart_bridge_init R p s).1
  init-IsBegun s v =
      let (rx, tx, took, gave, kept, flag) = init-same s in
      let no_output = ap contents tx ∙ v.no_output in
      let none_given = gave ∙ ap handed v.unused in
      let none_taken = kept ∙ ap accepted v.unused in
      record {
        order =
            ap (λ l. l ++ contents (uart_bridge_init R p s).1.tx_ring) none_given
            ∙ no_output
            ∙ sym none_taken;
        blocks = init-Balanced s (rw v.unused refl);
        counts = init-Counted s (ground (arith, v.counters, v.unused));
        running = record { flag = flag ∙ v.flag; going = inr (inl no_output) };
        empty = ap contents rx ∙ v.no_input;
        unclaimed = ap pending rx ∙ v.unclaimed;
        unheard = took ∙ ap stored v.unused;
      }
