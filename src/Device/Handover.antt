-- ===== src/Device/Handover.antt =====
-- The receive ring and the writer thread over every history of the device.
use nrf_proxy.Base.{◌<◌, ◌^◌, ◌≡◌, refl, sym, ◌⊎◌, inl, inr, subst, true, [], append-nil}
use nrf_proxy.Platform.{Platform}
use nrf_proxy.RingBuf.{RingBuf}
use nrf_proxy.Bridge.State.{Bridge}
use nrf_proxy.Bridge.Api.{uart_bridge_send}
use nrf_proxy.Bridge.Keeps.{set_baud-keeps}
use nrf_proxy.Bridge.Growth.{stored, Grows, Grows-start, Grows-quiet, Growth-Keeps, uart_cb-Grows}
use nrf_proxy.Device.Phase.{Phase}
use nrf_proxy.Device.State.{Host, Board, Device, Calls}
use nrf_proxy.Device.Aside.{Aside, received-keeps}
use nrf_proxy.Device.Effects.{Feeds, from_phone, from_driver, from_retry, Step-cases}
use nrf_proxy.Device.Wakeups.{Fed, IsFed, Grows-IsFed, writer_step-IsFed}
use nrf_proxy.Device.System.{World, Step, Steps, Steps-keeps}

module _ (R : RingBuf) (p : Platform) (board : Board) (host : Host) where
  open R use {Ring, contents}

  woken-Grows : (s : Bridge Ring) → Grows R p s (record s { rx_ready = true })
  woken-Grows s = record {
    more = [];
    grown = sym (append-nil (contents s.rx_ring));
    logged = sym (append-nil (stored s.calls));
    claims = refl;
    woken = inl refl;
    kept = λ h. refl;
  }

  -- A step that is not the writer's: the writer stays where it is, and the ring may grow.
  abbrev pub Fills : Device Ring → Device Ring → Type 0
  Fills s t = (t.writer ≡ s.writer) × Grows R p s.bridge t.bridge

  pub Aside-Fills : (s t : Device Ring) → Aside s t → Fills s t
  Aside-Fills s t (w, inl e, _) = (w, subst (Grows R p s.bridge) (sym e) (Grows-start R p s.bridge))
  Aside-Fills s t (w, inr e, _) = (w, subst (Grows R p s.bridge) (sym e) (woken-Grows s.bridge))

  pub Feeds-Fills : (s t : Device Ring) → Feeds R p board host s t → Fills s t
  Feeds-Fills _ _ (from_phone s t bytes cmd scratch arrivals e) =
      let grows = Growth-Keeps R p s.bridge in
      let (grown, same) =
        received-keeps R p board host (Grows R p s.bridge)
          (λ sent c g. unfold uart_bridge_send in grows.sends sent c g)
          (set_baud-keeps R p (Grows R p s.bridge) grows) bytes cmd scratch arrivals s t e
          (Grows-start R p s.bridge) in
      (same, grown)
  Feeds-Fills _ _ (from_driver s e) = (refl, uart_cb-Grows R p e s.bridge)
  Feeds-Fills _ _ (from_retry s) = (
    refl,
    (Growth-Keeps R p s.bridge).retries _
        (Grows-quiet R p s.bridge s.bridge _ (refl, refl, refl) (Grows-start R p s.bridge)),
  )

  pub Step-IsFed :
      ((tr : Calls) → host.att_mtu tr < 2 ^ 16)
      → (a b : World Ring) → Step R p board host a b
      → IsFed R p host a.device
      → IsFed R p host b.device
  Step-IsFed mtu a b step v = elim (Step-cases R p board host a b step) [
    | inl turn ↦ subst (IsFed R p host) (sym turn) (writer_step-IsFed R p host a.device mtu v)
    | inr (inl aside) ↦
        let (same, grown) = Aside-Fills a.device b.device aside in
        Grows-IsFed R p host a.device b.device same grown v
    | inr (inr feeds) ↦
        let (same, grown) = Feeds-Fills a.device b.device feeds in
        Grows-IsFed R p host a.device b.device same grown v
  ]

  -- From a state where the ring and the writer agree, over every history in which the writer's
  -- steps mix with interrupts, callbacks and timers in any order: while the writer waits for its
  -- semaphore, the receive ring is empty or the semaphore has been given. No wake-up is lost.
  pub no_lost_wakeup :
      (a b : World Ring)
      → ((tr : Calls) → host.att_mtu tr < 2 ^ 16)
      → IsFed R p host a.device
      → Steps R p board host a b
      → b.device.writer ≡ Phase.waiting
      → (contents b.device.bridge.rx_ring ≡ []) ⊎ (b.device.bridge.rx_ready ≡ true)
  no_lost_wakeup a b mtu v steps parked =
      let w =
        Steps-keeps R p board host (λ c. IsFed R p host c.device) (Step-IsFed mtu) a b steps v in
      subst (λ phase. Fed phase (contents b.device.bridge.rx_ring) b.device.bridge.rx_ready) parked
        w.fed
