-- ===== src/Device/Outsider/History.antt =====
-- Histories in which no link is encrypted.
use nrf_proxy.Base.{ℕ, ◌<◌, ◌≡◌, refl, ◌⊎◌, inr, subst, false, arith, List, some, ltb, leb, if_both}
use nrf_proxy.Platform.{Platform, fired}
use nrf_proxy.RingBuf.{RingBuf}
use nrf_proxy.Core.Command.{Cmd}
use nrf_proxy.Core.Link.{proxy_may_forward}
use nrf_proxy.Retry.{uart_rx_retry_warn_once}
use nrf_proxy.Bridge.State.{Bridge}
use nrf_proxy.Bridge.Receive.{retry_handler, enable_or_free}
use nrf_proxy.Bridge.Api.{
  Arrivals, uart_bridge_rx_is_empty, uart_bridge_rx_claim, uart_bridge_rx_finish,
}
use nrf_proxy.Bridge.Pipeline.{accepted}
use nrf_proxy.Bridge.Baud.{rate, uart_cb-rate}
use nrf_proxy.Bridge.Keeps.{report-same}
use nrf_proxy.Device.Phase.{
  Phase, waiting, checking, gating, draining, drained, claiming, hooking, sending, releasing,
  reporting, writer_refs,
}
use nrf_proxy.Device.State.{Host, Board, Device}
use nrf_proxy.Device.Advertising.{adv_retry_handler}
use nrf_proxy.Device.Link.{security_l2, on_security_changed, on_recycled}
use nrf_proxy.Device.Received.{nus_received}
use nrf_proxy.Device.Commands.{gated}
use nrf_proxy.Device.Forwarding.{uart_cb-accepted}
use nrf_proxy.Device.Uplink.{retried-accepted}
use nrf_proxy.Device.Thread.{
  wait_step, check_step, gate_step, drain_step, drained_step, claim_step, hook_step, send_step,
  release_step, report_step, phase_step, writer_step,
}
use nrf_proxy.Device.Outsider.{
  Untouched, Parts-Untouched, on_connected-Untouched, on_disconnected-Untouched,
  advertising_start-Untouched, watchdog-Untouched, grace-Untouched, blink-Untouched,
  paired-Untouched, slow-Untouched,
}
use nrf_proxy.Device.System.{
  World, Gap, quiet, connects, recycles, Step, link_made, link_failed, link_lost, recycled, secured,
  paired, received, writer_runs, uart_event, rx_retry_due, blink_due, slow_due, retry_due,
  grace_due, watchdog_due, Steps, stay, andthen,
}

module _ (R : RingBuf) (p : Platform) (board : Board) (host : Host) where
  open R use {Ring}

  -- A step that does not encrypt the link: a report of security is an error, or below level 2.
  abbrev pub IsOutside : (a b : World Ring) → Step R p board host a b → Type 0
  IsOutside _ _ (secured s w pause level err inside up) = (0 < err) ⊎ (level < security_l2)
  IsOutside _ _ _ = Unit

  -- A history that never encrypts a link.
  abbrev pub NeverSecured : (a b : World Ring) → Steps R p board host a b → Type 0
  NeverSecured _ _ (stay a) = Unit
  NeverSecured _ _ (andthen a b c steps last) = NeverSecured a b steps × IsOutside b c last

  module _ (a : Device Ring) where
    -- What leaves the calls that count alone.
    bridge-Untouched :
        (s : Device Ring) (b : Bridge Ring)
        → accepted b.calls ≡ accepted s.bridge.calls
        → rate b.calls ≡ rate s.bridge.calls
        → Untouched a s
        → Untouched a (record s { bridge = b })
    bridge-Untouched s b e f v = Parts-Untouched a _ (ground arith)

    retry_handler-rate : (b : Bridge Ring) → rate (retry_handler p b).1.calls ≡ rate b.calls
    unfolding retry_handler uart_rx_retry_warn_once enable_or_free
    retry_handler-rate b = ground arith

    recycled-Untouched : (s : Device Ring) → Untouched a s → Untouched a (on_recycled board host s)
    unfolding on_recycled
    recycled-Untouched s v = advertising_start-Untouched board host a s v

    retry-Untouched :
        (s : Device Ring)
        → Untouched a s
        → Untouched a (adv_retry_handler board host (record s { adv_retry_work = fired }))
    unfolding adv_retry_handler
    retry-Untouched s v =
        advertising_start-Untouched board host a (record s { adv_retry_work = fired })
          (Parts-Untouched a _ (ground arith))

    Gap-Untouched :
        (gap : Device Ring → Device Ring)
        → Gap R p board host gap
        → (t : Device Ring) → Untouched a t
        → Untouched a (gap t)
    Gap-Untouched _ quiet t v = v
    Gap-Untouched _ connects t v = on_connected-Untouched board host a t 0 v
    Gap-Untouched _ recycles t v = recycled-Untouched t v

    refused-Untouched :
        (pause : Device Ring → Device Ring) (level err : ℕ) (s : Device Ring)
        → (0 < err) ⊎ (level < security_l2)
        → Untouched a s
        → Untouched a (on_security_changed board host pause level err s)
    unfolding on_security_changed
    refused-Untouched pause level err s h v =
        if_both (Untouched a) (ltb 0 err) s _ (λ _. v)
          (λ fine. if_both (Untouched a) (leb 2 level) _ s (λ high. absurd (ground arith)) (λ _. v))

    phase_step-Untouched :
        (phase : Phase) (s : Device Ring)
        → writer_refs phase ≡ 0
        → s.writer ≡ phase
        → Untouched a s
        → Untouched a (phase_step R p host phase s)
    unfolding phase_step writer_refs proxy_may_forward wait_step check_step gate_step drain_step
        drained_step claim_step hook_step send_step release_step report_step uart_bridge_rx_is_empty
        uart_bridge_rx_claim uart_bridge_rx_finish
    phase_step-Untouched waiting s e w v = Parts-Untouched a _ (ground arith)
    phase_step-Untouched checking s e w v = Parts-Untouched a _ (ground arith)
    phase_step-Untouched gating s e w v = Parts-Untouched a _ (ground arith)
    phase_step-Untouched draining s e w v = Parts-Untouched a _ (ground arith)
    phase_step-Untouched (drained n) s e w v = Parts-Untouched a _ (ground arith)
    phase_step-Untouched claiming s e w v = absurd (omega arith)
    phase_step-Untouched (hooking chunk max_send) s e w v = absurd (omega arith)
    phase_step-Untouched (sending input sent max_send) s e w v = absurd (omega arith)
    phase_step-Untouched releasing s e w v = absurd (omega arith)
    phase_step-Untouched reporting s e w v =
        let same = report-same R p s.bridge in Parts-Untouched a _ (ground (arith, same))

    writer_step-Untouched : (s : Device Ring) → Untouched a s → Untouched a (writer_step R p host s)
    unfolding writer_step
    writer_step-Untouched s v = phase_step-Untouched s.writer s v.parked refl v

    gated-Untouched :
        (bytes : List ℕ) (cmd : Cmd) (scratch : List ℕ) (arrivals : Arrivals) (s t : Device Ring)
        → nus_received R p board host bytes cmd scratch arrivals s ≡ some t
        → Untouched a s
        → Untouched a t
    gated-Untouched bytes cmd scratch arrivals s t e v =
        let shut = gated R p board host bytes cmd scratch arrivals s v.unsafe in
        let same : s ≡ t = cc shut in subst (Untouched a) same v

    Step-Untouched :
        (b c : World Ring) (step : Step R p board host b c)
        → IsOutside b c step
        → Untouched a b.device
        → Untouched a c.device
    Step-Untouched _ _ (link_made s w down) o v = on_connected-Untouched board host a s 0 v
    Step-Untouched _ _ (link_failed s w err bad) o v = on_connected-Untouched board host a s err v
    Step-Untouched _ _ (link_lost s w) o v = on_disconnected-Untouched board host a s v
    Step-Untouched _ _ (recycled s w) o v = recycled-Untouched s v
    Step-Untouched _ _ (secured s w pause level err inside up) o v =
        refused-Untouched pause level err s o v
    Step-Untouched _ _ (paired s w bonded up) o v = paired-Untouched board host a s bonded v
    Step-Untouched _ _ (received s t w bytes cmd scratch arrivals e) o v =
        gated-Untouched bytes cmd scratch arrivals s t e v
    Step-Untouched _ _ (writer_runs s w) o v = writer_step-Untouched s v
    Step-Untouched _ _ (uart_event s w e) o v =
        bridge-Untouched s _ (uart_cb-accepted R p e s.bridge) (uart_cb-rate R p e s.bridge) v
    Step-Untouched _ _ (rx_retry_due s w) o v =
        bridge-Untouched s _ (retried-accepted R p (record s.bridge { retry_work = fired }))
          (retry_handler-rate _) v
    Step-Untouched _ _ (blink_due s w) o v = blink-Untouched board host a s v
    Step-Untouched _ _ (slow_due s w gap inside) o v =
        slow-Untouched board host a gap s (Gap-Untouched gap inside) v
    Step-Untouched _ _ (retry_due s w) o v = retry-Untouched s v
    Step-Untouched _ _ (grace_due s w) o v = grace-Untouched board host a s v
    Step-Untouched _ _ (watchdog_due s w) o v = watchdog-Untouched board host a s v

  -- From a state whose link is not encrypted and whose writer holds no connection, over every
  -- history in which no security report of level 2 or more succeeds, whatever else phones, timers,
  -- the UART and the writer do: the link is not encrypted, no notification is tried, the transmit
  -- ring takes nothing, the UART's rate stays, and the relay is off or as it was.
  pub outsider_gets_nothing :
      (a b : World Ring)
      → a.device.link_secure ≡ false
      → writer_refs a.device.writer ≡ 0
      → (steps : Steps R p board host a b) → NeverSecured a b steps
      → Untouched a.device b.device
  outsider_gets_nothing a _ unsafe parked (stay _) o =
      Parts-Untouched a.device a.device (unsafe, parked, refl, refl, refl, inr refl)
  outsider_gets_nothing _ _ unsafe parked (andthen a b c steps last) (o, out) =
      Step-Untouched a.device b c last out (outsider_gets_nothing a b unsafe parked steps o)
