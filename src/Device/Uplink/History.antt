-- ===== src/Device/Uplink/History.antt =====
-- What phones send over a whole history, against what the UART is given to transmit.
use nrf_proxy.Base.{
  some, true, ◌⊎◌, inl, inr, ℕ, ◌≡◌, refl, sym, ap, ◌∙◌, inl, inr, List, [], ◌++◌, arith,
  append-nil,
}
use nrf_proxy.Platform.{Platform, fired}
use nrf_proxy.RingBuf.{RingBuf}
use nrf_proxy.Bridge.State.{Bridge}
use nrf_proxy.Bridge.Api.{uart_bridge_rx_is_empty, uart_bridge_rx_claim, uart_bridge_rx_finish}
use nrf_proxy.Bridge.Pipeline.{accepted}
use nrf_proxy.Bridge.Keeps.{report-same}
use nrf_proxy.Device.State.{Host, Board, Device}
use nrf_proxy.Device.Phase.{
  Phase, waiting, checking, gating, draining, drained, claiming, hooking, sending, releasing,
  reporting,
}
use nrf_proxy.Device.Thread.{
  wait_step, check_step, gate_step, drain_step, drained_step, claim_step, hook_step, send_step,
  release_step, report_step, phase_step, writer_step,
}
use nrf_proxy.Device.Forwarding.{uart_cb-accepted}
use nrf_proxy.Device.Aside.{Aside}
use nrf_proxy.Device.System.{World, Steps, stay, andthen}
use nrf_proxy.Device.Hearing.{
  hears, heard, Hears, writes, passes_by, drives, restarts, phones, Step-Hears,
}
use nrf_proxy.Core.Command.{Cmd}
use nrf_proxy.Core.Command.Framing.{IsFramed}
use nrf_proxy.Bridge.Api.{Arrivals}
use nrf_proxy.Device.Received.{nus_received}
use nrf_proxy.Device.Uplink.{
  Crops, Carried-map, Carried, nothing, Carries, heard-Carries, retried-accepted,
}

module _ (R : RingBuf) (p : Platform) (board : Board) (host : Host) where
  open R use {Ring, contents}

  phase_step-calls :
      (phase : Phase) (s : Device Ring)
      → (phase_step R p host phase s).bridge.calls ≡ s.bridge.calls
  unfolding phase_step wait_step check_step gate_step drain_step drained_step claim_step hook_step
      send_step release_step report_step uart_bridge_rx_is_empty uart_bridge_rx_claim
      uart_bridge_rx_finish
  phase_step-calls waiting s = ground arith
  phase_step-calls checking s = ground arith
  phase_step-calls gating s = ground arith
  phase_step-calls draining s = refl
  phase_step-calls (drained n) s = refl
  phase_step-calls claiming s = ground arith
  phase_step-calls (hooking chunk max_send) s = refl
  phase_step-calls (sending input sent max_send) s = ground arith
  phase_step-calls releasing s = refl
  phase_step-calls reporting s = (report-same R p s.bridge).0

  -- A step in which a phone's chunk, written over an encrypted link and no command, loses bytes.
  abbrev Cuts : Device Ring → Device Ring → Type 0
  Cuts s t =
      (bytes : List ℕ) × (cmd : Cmd) × (scratch : List ℕ) × (arrivals : Arrivals) × (nus_received R
          p board host bytes cmd scratch arrivals s
        ≡ some t)
      × (s.link_secure ≡ true)
      × (¬ IsFramed bytes)
      × Crops R p board host bytes scratch s

  -- The history has such a step.
  abbrev pub Cropped : (a b : World Ring) → Steps R p board host a b → Type 0
  Cropped _ _ (stay a) = ⊥
  Cropped _ _ (andthen a b c steps last) = Cropped a b steps ⊎ Cuts b.device c.device

  same-Carries :
      (May : Type 0) (base : List ℕ) (chunks : List (List ℕ)) (s t : Device Ring)
      → accepted t.bridge.calls ≡ accepted s.bridge.calls
      → Carries May base chunks s
      → Carries May base chunks t
  same-Carries May base chunks s t same (out, taken, carried) = (out, same ∙ taken, carried)

  Aside-Carries :
      (May : Type 0) (base : List ℕ) (chunks : List (List ℕ)) (s t : Device Ring)
      → Aside s t
      → Carries May base chunks s
      → Carries May base chunks t
  Aside-Carries May base chunks s t aside h =
      same-Carries May base chunks s t
        (elim aside.1 [
          | inl same ↦ ap (λ (b : Bridge Ring). accepted b.calls) same
          | inr woken ↦ ap (λ (b : Bridge Ring). accepted b.calls) woken
        ])
        h

  Hears-Carries :
      (May : Type 0) (base : List ℕ) (s t : Device Ring) (before after : List (List ℕ))
      → Hears R p board host s t before after
      → (Cuts s t → May)
      → Carries May base before s
      → Carries May base after t
  unfolding writer_step phase_step
  Hears-Carries May base _ t _ _ (writes s chunks) may h =
      same-Carries May base chunks s t (ap accepted (phase_step-calls s.writer s)) h
  Hears-Carries May base _ _ _ _ (passes_by s t chunks aside) may h =
      Aside-Carries May base chunks s t aside h
  Hears-Carries May base _ t _ _ (drives s chunks e) may h =
      same-Carries May base chunks s t (uart_cb-accepted R p e s.bridge) h
  Hears-Carries May base _ t _ _ (restarts s chunks) may h =
      same-Carries May base chunks s t
        (retried-accepted R p (record s.bridge { retry_work = fired })) h
  Hears-Carries May base _ _ _ _ (phones s t chunks bytes cmd scratch arrivals e) may h =
      heard-Carries R p board host May bytes cmd scratch arrivals s t base chunks e
        (λ c. may (bytes, cmd, scratch, arrivals, e, c.0, c.1, c.2)) h

  -- What the transmit ring takes, from any state.
  taken :
      (a b : World Ring) (steps : Steps R p board host a b)
      → (out : List ℕ) × (accepted b.device.bridge.calls ≡ accepted a.device.bridge.calls ++ out)
        × Carried (Cropped a b steps) (heard R p board host a b steps) out
  taken a _ (stay _) = ([], sym (append-nil _), nothing)
  taken _ _ (andthen a b c steps last) =
      let chunks = heard R p board host a b steps in
      let May = Cropped a c (andthen a b c steps last) in
      let base = accepted a.device.bridge.calls in
      let (out, took, carried) = taken a b steps in
      Hears-Carries May base b.device c.device chunks (hears R p board host b c last chunks)
        (Step-Hears R p board host b c last chunks) (λ cuts. inr cuts)
        (out, took, Carried-map (Cropped a b steps) May chunks out (λ l. inl l) carried)
