-- ===== src/Device/Downlink/History.antt =====
-- The notifications of a whole history, against what the receive ring took.
use nrf_proxy.Base.{
  ℕ, ◌<◌, ◌^◌, ◌≡◌, ◌⊎◌, refl, sym, inl, inr, subst, List, [], ◌∷◌, ◌++◌, if_both, some,
  if◌then◌else◌,
}
use nrf_proxy.Platform.{Platform}
use nrf_proxy.RingBuf.{RingBuf}
use nrf_proxy.Core.Command.{Cmd}
use nrf_proxy.Bridge.Api.{Arrivals}
use nrf_proxy.Bridge.Growth.{stored}
use nrf_proxy.Device.State.{Host, Board, Device, Calls}
use nrf_proxy.Device.Aside.{sends}
use nrf_proxy.Device.Effects.{from_phone, from_driver, from_retry}
use nrf_proxy.Device.Wakeups.{IsFed}
use nrf_proxy.Device.Handover.{Fills, Aside-Fills, Feeds-Fills, Step-IsFed}
use nrf_proxy.Device.Stream.{Reads, InStream}
use nrf_proxy.Device.Stream.Order.{Step-InStream}
use nrf_proxy.Device.Received.{nus_received}
use nrf_proxy.Device.Hearing.{
  hears, heard, Hears, writes, passes_by, drives, restarts, phones, Step-Hears,
}
use nrf_proxy.Device.Downlink.{
  unanswered, echoed, Accounts, Accounts-more, Accounts-told, Accounts-map, InAccount,
}
use nrf_proxy.Device.Downlink.Writer.{Loses, writer_step-InAccount}
use nrf_proxy.Device.Thread.{writer_step}
use nrf_proxy.Device.Downlink.Replies.{received-sends}
use nrf_proxy.Device.System.{World, Steps, stay, andthen}

module _ (R : RingBuf) (p : Platform) (board : Board) (host : Host) where
  open R use {Ring, contents}

  -- The history has a step of the writer that loses bytes.
  abbrev pub Lossy : (a b : World Ring) → Steps R p board host a b → Type 0
  Lossy _ _ (stay a) = ⊥
  Lossy _ _ (andthen a b c steps last) =
      Lossy a b steps ⊎ (c.device ≡ writer_step R p host b.device) × Loses R p host b.device

  -- The ring may grow, once the notifications of the step are accounted for.
  Fills-InAccount :
      (May : Type 0) (chunks : List (List ℕ)) (s t : Device Ring)
      → Fills R p board host s t
      → Accounts May chunks s.writer
          (sends t.calls)
          (stored s.bridge.calls)
          (contents s.bridge.rx_ring)
      → InAccount R p host May chunks t
  Fills-InAccount May chunks s t (w, g) v =
      subst
        (λ phase.
          Accounts May chunks phase (sends t.calls) (stored t.bridge.calls)
            (contents t.bridge.rx_ring))
        (sym w)
        (subst
          (λ took. Accounts May chunks s.writer (sends t.calls) took (contents t.bridge.rx_ring))
          (sym g.logged)
          (subst (Accounts May chunks s.writer (sends t.calls) (stored s.bridge.calls ++ g.more))
            (sym g.grown)
            (Accounts-more May chunks s.writer (sends t.calls) (stored s.bridge.calls)
              (contents s.bridge.rx_ring) g.more v)))

  -- A step that notifies nothing.
  silent-InAccount :
      (May : Type 0) (chunks : List (List ℕ)) (s t : Device Ring)
      → Fills R p board host s t
      → sends t.calls ≡ sends s.calls
      → InAccount R p host May chunks s
      → InAccount R p host May chunks t
  silent-InAccount May chunks s t filled same v = Fills-InAccount May chunks s t filled (
      subst
        (λ notes.
          Accounts May chunks s.writer notes (stored s.bridge.calls) (contents s.bridge.rx_ring))
        (sym same) v)

  received-InAccount :
      (May : Type 0) (chunks : List (List ℕ)) (s t : Device Ring) (bytes : List ℕ) (cmd : Cmd)
      (scratch : List ℕ) (a : Arrivals)
      → nus_received R p board host bytes cmd scratch a s ≡ some t
      → InAccount R p host May chunks s
      → InAccount R p host May (if s.link_secure then bytes ∷ chunks else chunks) t
  received-InAccount May chunks s t bytes cmd scratch a e v =
      let filled = Feeds-Fills R p board host s t (from_phone s t bytes cmd scratch a e) in
      elim (received-sends R p board host bytes cmd scratch a s t e) [
        | inl same ↦
            let quiet = silent-InAccount May chunks s t filled same v in
            if_both (λ heard. InAccount R p host May heard t) s.link_secure (bytes ∷ chunks) chunks
              (λ _.
                Accounts-told May chunks (bytes ∷ chunks) t.writer (sends t.calls) (sends t.calls)
                  (stored t.bridge.calls) (contents t.bridge.rx_ring)
                  (λ stream told. unanswered bytes chunks (sends t.calls) stream told) quiet)
              (λ _. quiet)
        | inr (sec, f, more) ↦
            let took = stored s.bridge.calls in
            let held = contents s.bridge.rx_ring in
            rw sec (
              Fills-InAccount May (bytes ∷ chunks) s t filled (
                subst (λ notes. Accounts May (bytes ∷ chunks) s.writer notes took held) (sym more)
                  (Accounts-told May chunks (bytes ∷ chunks) s.writer (sends s.calls)
                    (bytes ∷ sends s.calls) took held
                    (λ stream told. echoed bytes chunks (sends s.calls) stream f told) v)))
      ]

  Hears-InAccount :
      (May : Type 0) (s t : Device Ring) (before after : List (List ℕ))
      → Hears R p board host s t before after
      → ((tr : Calls) → host.att_mtu tr < 2 ^ 16)
      → IsFed R p host s
      → InStream R p host s
      → (t ≡ writer_step R p host s → Loses R p host s → May)
      → InAccount R p host May before s
      → InAccount R p host May after t
  Hears-InAccount May _ _ _ _ (writes s chunks) mtu fed r may v =
      writer_step-InAccount R p host May chunks s fed.claims r v mtu (may refl)
  Hears-InAccount May _ _ _ _ (passes_by s t chunks aside) mtu fed r may v =
      silent-InAccount May chunks s t (Aside-Fills R p board host s t aside) aside.2 v
  Hears-InAccount May _ t _ _ (drives s chunks e) mtu fed r may v =
      silent-InAccount May chunks s t (Feeds-Fills R p board host s t (from_driver s e)) refl v
  Hears-InAccount May _ t _ _ (restarts s chunks) mtu fed r may v =
      silent-InAccount May chunks s t (Feeds-Fills R p board host s t (from_retry s)) refl v
  Hears-InAccount May _ _ _ _ (phones s t chunks bytes cmd scratch arrivals e) mtu fed r may v =
      received-InAccount May chunks s t bytes cmd scratch arrivals e v

  accounted :
      (a b : World Ring) (steps : Steps R p board host a b)
      → ((tr : Calls) → host.att_mtu tr < 2 ^ 16)
      → IsFed R p host a.device
      → InStream R p host a.device
      → InAccount R p host ⊥ [] a.device
      → IsFed R p host b.device
        × InStream R p host b.device
        × InAccount R p host (Lossy a b steps) (heard R p board host a b steps) b.device
  accounted a _ (stay _) mtu fed r v = (fed, r, v)
  accounted _ _ (andthen a b c steps last) mtu fed r v =
      let (fed', r', v') = accounted a b steps mtu fed r v in
      let chunks = heard R p board host a b steps in
      let May = Lossy a c (andthen a b c steps last) in
      (
        Step-IsFed R p board host mtu b c last fed',
        Step-InStream R p board host b c last fed' r',
        Hears-InAccount May b.device c.device chunks (hears R p board host b c last chunks)
            (Step-Hears R p board host b c last chunks) mtu fed' r'
            (λ turn loses. inr (turn, loses))
            (Accounts-map (Lossy a b steps) May chunks b.device.writer (sends b.device.calls)
              (stored b.device.bridge.calls) (contents b.device.bridge.rx_ring) (λ l. inl l) v'),
      )

  -- From a state where the ring, the writer and the streams agree and nothing has been lost or
  -- echoed, over every history: every byte that the receive ring took is through, or with the
  -- writer, or in the ring, in the order in which they came; what is through has been notified piece
  -- by piece, in order, but for bytes lost where the history has a step of the writer that empties
  -- the ring, cuts a chunk that does not fit `proc_buf`, or meets a refusal for good; and the
  -- only other notifications are echoes of framed commands, each right after the command came over an
  -- encrypted link and at most one for each. The MTU fits 16 bits.
  pub downlink_tells :
      (a b : World Ring) (steps : Steps R p board host a b)
      → ((tr : Calls) → host.att_mtu tr < 2 ^ 16)
      → IsFed R p host a.device
      → Reads a.device.writer (stored a.device.bridge.calls) (contents a.device.bridge.rx_ring)
      → Accounts ⊥ [] a.device.writer
          (sends a.device.calls)
          (stored a.device.bridge.calls)
          (contents a.device.bridge.rx_ring)
      → Accounts
          (Lossy a b steps)
          (heard R p board host a b steps)
          b.device.writer
          (sends b.device.calls)
          (stored b.device.bridge.calls)
          (contents b.device.bridge.rx_ring)
  downlink_tells a b steps mtu fed r v = (accounted a b steps mtu fed r v).2
