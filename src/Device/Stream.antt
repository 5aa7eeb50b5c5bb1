-- ===== src/Device/Stream.antt =====
-- What `ble_write_thread` takes off the receive ring, against what the ring took.
pub mod Order
use nrf_proxy.Base.{
  ℕ, ◌+◌, ◌-◌, drop-append_length, ◌<◌, ◌≡◌, refl, sym, ap, ◌∙◌, ◌^◌, inl, inr, subst, List, [],
  ◌∷◌, ◌++◌, arith, append_assoc, append-nil, length, take, drop, if_both, ◌==◌, take-append-drop,
  ==_iff,
}
use nrf_proxy.Platform.{Platform}
use nrf_proxy.RingBuf.{RingBuf}
use nrf_proxy.Core.Hooks.{on_uart_rx, hooks_forward}
use nrf_proxy.Core.Link.{proxy_may_forward}
use nrf_proxy.Core.Send.{proxy_nus_chunk_limit, proxy_next_slice, proxy_send_result}
use nrf_proxy.Bridge.State.{Bridge}
use nrf_proxy.Bridge.Api.{uart_bridge_rx_is_empty, uart_bridge_rx_claim, uart_bridge_rx_finish}
use nrf_proxy.Bridge.Keeps.{report-same}
use nrf_proxy.Bridge.Growth.{stored, Grows}
use nrf_proxy.Device.Phase.{
  Phase, waiting, checking, gating, draining, drained, claiming, hooking, sending, releasing,
  reporting, writer_claimed,
}
use nrf_proxy.Device.State.{Host, Board, Device, Calls}
use nrf_proxy.Device.Thread.{
  wait_step, check_step, gate_step, drain_step, drained_step, claim_step, hook_step, send_step,
  release_step, report_step, phase_step, writer_step, at,
}
use nrf_proxy.Device.Received.{nus_send}
use nrf_proxy.Device.Writer.{forward_snapshot}
use nrf_proxy.Device.Writing.{Verdict_both}
use nrf_proxy.Device.Wakeups.{IsFed}

-- Of what the ring took, the ring holds the last bytes.
abbrev pub IsRest : List ℕ → List ℕ → Type 0
IsRest took held = (before : List ℕ) × (took ≡ before ++ held)

-- Where the writer stands in the stream of bytes that the ring took. A claim is the oldest of the
-- bytes held; the bytes being sent are one piece of the stream, older than all bytes held.
abbrev pub Reads : Phase → List ℕ → List ℕ → Type 0
Reads (Phase.hooking chunk max_send) took held =
    IsRest took held × ((rest : List ℕ) × (held ≡ chunk ++ rest))
Reads (Phase.sending input sent max_send) took held =
    (cut : List ℕ) × IsRest took (input ++ (cut ++ held))
Reads _ took held = IsRest took held

IsRest-more : (took held more : List ℕ) → IsRest took held → IsRest (took ++ more) (held ++ more)
IsRest-more took held more (before, e) =
    (before, ap (λ l. l ++ more) e ∙ append_assoc before held more)

IsRest-drop : (took xs held : List ℕ) → IsRest took (xs ++ held) → IsRest took held
IsRest-drop took xs held (before, e) = (before ++ xs, e ∙ sym (append_assoc before xs held))

Reads-more :
    (phase : Phase) (took held more : List ℕ)
    → Reads phase took held
    → Reads phase (took ++ more) (held ++ more)
Reads-more Phase.waiting took held more r = IsRest-more took held more r
Reads-more Phase.checking took held more r = IsRest-more took held more r
Reads-more Phase.gating took held more r = IsRest-more took held more r
Reads-more Phase.draining took held more r = IsRest-more took held more r
Reads-more (Phase.drained n) took held more r = IsRest-more took held more r
Reads-more Phase.claiming took held more r = IsRest-more took held more r
Reads-more (Phase.hooking chunk max_send) took held more (r, (rest, e)) = (
  IsRest-more took held more r,
  (rest ++ more, ap (λ l. l ++ more) e ∙ append_assoc chunk rest more),
)
Reads-more (Phase.sending input sent max_send) took held more (cut, r) = (
  cut,
  subst (IsRest (took ++ more))
      (append_assoc input (cut ++ held) more ∙ ap (λ l. input ++ l) (append_assoc cut held more))
      (IsRest-more took (input ++ (cut ++ held)) more r),
)
Reads-more Phase.releasing took held more r = IsRest-more took held more r
Reads-more Phase.reporting took held more r = IsRest-more took held more r

module _ (R : RingBuf) (p : Platform) (host : Host) where
  open R use {Ring, contents, pending, claim, finish, claim_bytes, claim_contents, finish_contents}

  abbrev pub InStream : Device Ring → Type 0
  InStream s = Reads s.writer (stored s.bridge.calls) (contents s.bridge.rx_ring)

  pub Grows-InStream :
      (s t : Device Ring)
      → t.writer ≡ s.writer
      → Grows R p s.bridge t.bridge
      → InStream s
      → InStream t
  Grows-InStream s t w g v =
      subst (λ phase. Reads phase (stored t.bridge.calls) (contents t.bridge.rx_ring)) (sym w)
        (subst (λ took. Reads s.writer took (contents t.bridge.rx_ring)) (sym g.logged)
          (subst (Reads s.writer (stored s.bridge.calls ++ g.more)) (sym g.grown)
            (Reads-more s.writer _ _ g.more v)))

  phase_step-InStream :
      (phase : Phase) (s : Device Ring)
      → s.writer ≡ phase
      → pending s.bridge.rx_ring ≡ writer_claimed phase
      → Reads phase (stored s.bridge.calls) (contents s.bridge.rx_ring)
      → InStream (phase_step R p host phase s)
  unfolding phase_step writer_claimed wait_step check_step gate_step drain_step drained_step
      claim_step hook_step send_step release_step report_step uart_bridge_rx_is_empty
      uart_bridge_rx_claim uart_bridge_rx_finish
  phase_step-InStream waiting s e c r =
      if_both InStream s.bridge.rx_ready _ _ (λ _. r) (λ _. rw e r)
  phase_step-InStream checking s e c r =
      if_both InStream (R.is_empty s.bridge.rx_ring) _ _ (λ _. r) (λ _. r)
  phase_step-InStream gating s e c r =
      if_both InStream (proxy_may_forward (forward_snapshot R p host s)) _ _ (λ _. r) (λ _. r)
  phase_step-InStream draining s e c r =
      let max = 2 ^ 32 - 1 in
      let bytes = (claim s.bridge.rx_ring max).0 in
      let claimed : Bridge Ring = record s.bridge { rx_ring = (claim s.bridge.rx_ring max).1 } in
      let kept =
        subst (IsRest (stored s.bridge.calls)) (sym (claim_contents s.bridge.rx_ring max)) r in
      if_both (λ phase. InStream (record s { bridge = claimed; writer = phase }))
        (length bytes == 0) Phase.reporting (Phase.drained (length bytes)) (λ _. kept) (λ _. kept)
  phase_step-InStream (drained n) s e c r =
      let held = contents s.bridge.rx_ring in
      let took = stored s.bridge.calls in
      subst (IsRest took) (sym (finish_contents s.bridge.rx_ring n (omega (arith, c)))) (
        IsRest-drop took (take n held) (drop n held)
          (subst (IsRest took) (sym (take-append-drop n held)) r))
  phase_step-InStream claiming s e c r =
      let max_send = proxy_nus_chunk_limit (host.att_mtu s.calls) in
      let ring = s.bridge.rx_ring in
      let chunk = (claim ring max_send).0 in
      let rest = drop (length chunk) (contents ring) in
      let kept = subst (IsRest (stored s.bridge.calls)) (sym (claim_contents ring max_send)) r in
      let front =
        claim_contents ring max_send
        ∙ sym (take-append-drop (length chunk) (contents ring))
        ∙ ap (λ l. l ++ rest) (sym (claim_bytes ring max_send c)) in
      if_both InStream (length chunk == 0) _ _ (λ _. kept) (λ _. (kept, (rest, front)))
  phase_step-InStream (hooking chunk max_send) s e c (r, (rest, h)) =
      let size = length s.writer_buf in
      let cut = drop size chunk in
      let (n, out) = on_uart_rx chunk s.writer_buf in
      let copied = (hooks_forward chunk s.writer_buf).0 in
      let left =
        finish_contents s.bridge.rx_ring (length chunk) (omega (arith, c))
        ∙ ap (drop (length chunk)) h
        ∙ drop-append_length chunk rest (length chunk) refl in
      let split =
        h
        ∙ ap (λ l. l ++ rest) (sym (take-append-drop size chunk))
        ∙ append_assoc (take size chunk) cut rest
        ∙ ap (λ l. l ++ (cut ++ rest)) (sym copied.1)
        ∙ ap (λ l. take n out ++ (cut ++ l)) (sym left) in
      (cut, subst (IsRest (stored s.bridge.calls)) split r)
  phase_step-InStream (sending input sent max_send) s e c (cut, r) =
      let slice = proxy_next_slice (length input) sent max_send in
      let bytes = take slice (drop sent input) in
      let t = (nus_send host bytes s).1 in
      let held = contents s.bridge.rx_ring in
      let took = stored s.bridge.calls in
      let over = IsRest-drop took cut held (IsRest-drop took input (cut ++ held) r) in
      if_both InStream (slice == 0) _ _ (λ _. over)
        (λ _.
          Verdict_both InStream (proxy_send_result (nus_send host bytes s).0)
            (at R p host (Phase.sending input (sent + slice) max_send) t) t
            (at R p host Phase.releasing t) (cut, r) (rw e (cut, r)) over)
  phase_step-InStream releasing s e c r = r
  phase_step-InStream reporting s e c r =
      let same = report-same R p s.bridge in rw (same.0, same.2) r

  pub writer_step-InStream :
      (s : Device Ring)
      → pending s.bridge.rx_ring ≡ writer_claimed s.writer
      → InStream s
      → InStream (writer_step R p host s)
  unfolding writer_step
  writer_step-InStream s c r = phase_step-InStream s.writer s refl c r
