-- ===== src/Device/Undisturbed.antt =====
-- The writer thread when nothing else runs: its steps make up a round of `ble_write_round`.
pub mod Rounds
use nrf_proxy.Base.{
  ℕ, zero, suc, ◌+◌, ◌-◌, ◌<◌, ◌^◌, ◌≡◌, refl, sym, ap, ◌∙◌, subst, Bool, true, false, not, Option,
  none, some, List, [], ◌==◌, ◌>>=◌, if◌then◌else◌, arith, take, drop, length, if_both, if_true,
  if_false, ==_iff, Bool-cases, inl, inr,
}
use nrf_proxy.Platform.{Platform}
use nrf_proxy.RingBuf.{RingBuf}
use nrf_proxy.Core.Hooks.{on_uart_rx}
use nrf_proxy.Core.Link.{proxy_may_forward}
use nrf_proxy.Core.Send.{Verdict, proxy_next_slice, proxy_send_result, proxy_nus_chunk_limit}
use nrf_proxy.Bridge.State.{Bridge}
use nrf_proxy.Bridge.Api.{
  uart_bridge_rx_is_empty, uart_bridge_rx_claim, uart_bridge_rx_finish, drain_loop,
  uart_bridge_rx_drain,
}
use nrf_proxy.Device.Phase.{Phase}
use nrf_proxy.Device.State.{Host, Device}
use nrf_proxy.Device.Received.{nus_send}
use nrf_proxy.Device.Writer.{
  send_loop, send_processed, send_claimed, write_loop, ble_write_round, forward_snapshot,
}
use nrf_proxy.Device.Thread.{
  at, wait_step, check_step, gate_step, drain_step, drained_step, claim_step, hook_step, send_step,
  release_step, report_step, phase_step, writer_step,
}
use nrf_proxy.Device.Sending.{Verdict-cases}
use nrf_proxy.Device.Writing.{Leaves, Leaves-bind, Leaves-weaken, Verdict_both}

module _ (R : RingBuf) (p : Platform) (host : Host) where
  open R use {Ring, claim, finish}

  -- Steps of the writer only.
  pub data Turns : Device Ring → Device Ring → Type 0 where
    rest : (s : Device Ring) → Turns s s
    turn : (s t : Device Ring) → Turns (writer_step R p host s) t → Turns s t

  pub Turns-trans : (s t u : Device Ring) → Turns s t → Turns t u → Turns s u
  Turns-trans _ t u (rest s) more = more
  Turns-trans _ _ u (turn s t steps) more =
      turn s u (Turns-trans (writer_step R p host s) t u steps more)

  -- A step whose result is known.
  pub step_to : (s t u : Device Ring) → writer_step R p host s ≡ t → Turns t u → Turns s u
  step_to s t u e steps = turn s u (subst (λ v. Turns v u) (sym e) steps)

  -- A turn of the loop of `send_processed`, for each verdict.
  send_turn :
      (input : List ℕ) (sent max_send : ℕ) (s : Device Ring)
      → let slice = proxy_next_slice (length input) sent max_send in
        let t : Device Ring = (nus_send host (take slice (drop sent input)) s).1 in
        writer_step R p host (at R p host (Phase.sending input sent max_send) s) ≡ (
          if slice == 0
          then at R p host Phase.releasing s
          else elim (proxy_send_result (nus_send host (take slice (drop sent input)) s).0) [
            | Verdict.consumed ↦ at R p host (Phase.sending input (sent + slice) max_send) t
            | Verdict.retry ↦ at R p host (Phase.sending input sent max_send) t
            | Verdict.dropped ↦ at R p host Phase.releasing t
          ])
  unfolding writer_step phase_step send_step
  send_turn input sent max_send s = ground arith

  abbrev pub scratched : List ℕ → Device Ring → Device Ring
  scratched buf s = record s { writer_buf = buf }

  send_loop-Turns :
      (fuel : ℕ) (input : List ℕ) (sent max_send : ℕ) (buf : List ℕ) (s : Device Ring)
      → Leaves
          (λ t.
            Turns
              (at R p host (Phase.sending input sent max_send) (scratched buf s))
              (at R p host Phase.releasing (scratched buf t)))
          (send_loop host fuel input sent max_send s)
  unfolding send_loop
  send_loop-Turns zero input sent max_send buf s = tt
  send_loop-Turns (suc fuel) input sent max_send buf s =
      let slice = proxy_next_slice (length input) sent max_send in
      let t : Device Ring = (nus_send host (take slice (drop sent input)) s).1 in
      let verdict = proxy_send_result (nus_send host (take slice (drop sent input)) s).0 in
      let step = send_turn input sent max_send (scratched buf s) in
      elim (Bool-cases (slice == 0)) [
        | inl done ↦ rw done (step_to _ _ _ (step ∙ rw done refl) (rest _))
        | inr more ↦ elim (Verdict-cases verdict) [
          | inl consumed ↦
              rw (more, consumed)
                (Leaves-weaken _ _ (send_loop host fuel input (sent + slice) max_send t)
                  (λ u. step_to _ _ _ (step ∙ rw (more, consumed) refl))
                  (send_loop-Turns fuel input (sent + slice) max_send buf t))
          | inr (inl retry) ↦
              rw (more, retry)
                (Leaves-weaken _ _ (send_loop host fuel input sent max_send t)
                  (λ u. step_to _ _ _ (step ∙ rw (more, retry) refl))
                  (send_loop-Turns fuel input sent max_send buf t))
          | inr (inr dropped) ↦
              rw (more, dropped) (step_to _ _ _ (step ∙ rw (more, dropped) refl) (rest _))
        ]
      ]

  abbrev pub ringed : Ring → Device Ring → Device Ring
  ringed ring s = record s { bridge = record s.bridge { rx_ring = ring } }

  drain_turn :
      (ring : Ring) (s : Device Ring)
      → let (bytes, claimed) = claim ring (2 ^ 32 - 1) in
        writer_step R p host (at R p host Phase.draining (ringed ring s))
        ≡ at R p host
            (if length bytes == 0 then Phase.reporting else Phase.drained (length bytes))
            (ringed claimed s)
  unfolding writer_step phase_step drain_step uart_bridge_rx_claim
  drain_turn ring s = refl

  drained_turn :
      (n : ℕ) (ring : Ring) (s : Device Ring)
      → writer_step R p host (at R p host (Phase.drained n) (ringed ring s))
        ≡ at R p host Phase.draining (ringed (finish ring n) s)
  unfolding writer_step phase_step drained_step uart_bridge_rx_finish
  drained_turn n ring s = refl

  pub drain_loop-Turns :
      (fuel : ℕ) (ring : Ring) (s : Device Ring)
      → Leaves
          (λ t.
            Turns
              (at R p host Phase.draining (ringed ring s))
              (at R p host Phase.reporting (ringed t s)))
          (drain_loop R p fuel ring)
  unfolding drain_loop
  drain_loop-Turns zero ring s = tt
  drain_loop-Turns (suc fuel) ring s =
      let n = length (claim ring (2 ^ 32 - 1)).0 in
      let claimed = (claim ring (2 ^ 32 - 1)).1 in
      let step = drain_turn ring s in
      elim (Bool-cases (n == 0)) [
        | inl done ↦ rw done (step_to _ _ _ (step ∙ rw done refl) (rest _))
        | inr more ↦
            let claims : writer_step R p host (at R p host Phase.draining (ringed ring s))
                ≡ at R p host (Phase.drained n) (ringed claimed s) =
              step ∙ rw more refl in
            rw more (
              Leaves-weaken
                (λ t.
                  Turns (at R p host Phase.draining (ringed (finish claimed n) s))
                    (at R p host Phase.reporting (ringed t s)))
                (λ t.
                  Turns (at R p host Phase.draining (ringed ring s))
                    (at R p host Phase.reporting (ringed t s)))
                (drain_loop R p fuel (finish claimed n))
                (λ u steps. step_to _ _ _ claims (step_to _ _ _ (drained_turn n claimed s) steps))
                (drain_loop-Turns fuel (finish claimed n) s))
      ]

  hook_turn :
      (chunk : List ℕ) (max_send : ℕ) (buf : List ℕ) (s : Device Ring)
      → let (out_len, out) = on_uart_rx chunk buf in
        writer_step R p host (at R p host (Phase.hooking chunk max_send) (scratched buf s))
        ≡ at R p host (Phase.sending (take out_len out) 0 max_send) (
            scratched out
              (record s { bridge = (uart_bridge_rx_finish R p (length chunk) s.bridge).1 }))
  unfolding writer_step phase_step hook_step
  hook_turn chunk max_send buf s = refl

  release_turn :
      (s : Device Ring)
      → writer_step R p host (at R p host Phase.releasing s)
        ≡ at R p host Phase.checking (record s { conn_refs = s.conn_refs - 1 })
  unfolding writer_step phase_step release_step
  release_turn s = refl

  pub send_claimed-Turns :
      (fuel : ℕ) (chunk : List ℕ) (max_send : ℕ) (buf : List ℕ) (s : Device Ring)
      → Leaves
          (λ t.
            Turns
              (at R p host (Phase.hooking chunk max_send) (scratched buf s))
              (at R p host Phase.checking (scratched (on_uart_rx chunk buf).1 t)))
          (send_claimed R p host fuel chunk max_send buf s)
  unfolding send_claimed send_processed
  send_claimed-Turns fuel chunk max_send buf s =
      let (out_len, out) = on_uart_rx chunk buf in
      let finished : Device Ring = record s {
        bridge = (uart_bridge_rx_finish R p (length chunk) s.bridge).1;
      } in
      Leaves-bind _ _ (send_loop host fuel (take out_len out) 0 max_send finished) _
        (send_loop-Turns fuel (take out_len out) 0 max_send out finished)
        (λ t steps.
          step_to _ _ _ (hook_turn chunk max_send buf s)
            (Turns-trans _ _ _ steps (step_to _ _ _ (release_turn (scratched out t)) (rest _))))

  pub check_turn :
      (s : Device Ring)
      → writer_step R p host (at R p host Phase.checking s) ≡ (
          if (uart_bridge_rx_is_empty R p s.bridge).0
          then at R p host Phase.reporting s
          else at R p host Phase.gating s)
  unfolding writer_step phase_step check_step
  check_turn s = refl

  pub gate_turn :
      (s : Device Ring)
      → writer_step R p host (at R p host Phase.gating s) ≡ (
          if proxy_may_forward (forward_snapshot R p host s)
          then at R p host Phase.claiming (record s { conn_refs = s.conn_refs + 1 })
          else at R p host Phase.draining s)
  unfolding writer_step phase_step gate_step
  gate_turn s = refl

  pub claim_turn :
      (s : Device Ring)
      → let max_send = proxy_nus_chunk_limit (host.att_mtu s.calls) in
        let (chunk, bridge) = uart_bridge_rx_claim R p max_send s.bridge in
        let claimed : Device Ring = record s { bridge = bridge } in
        writer_step R p host (at R p host Phase.claiming s) ≡ (
          if length chunk == 0
          then at R p host Phase.reporting (record claimed { conn_refs = s.conn_refs - 1 })
          else at R p host (Phase.hooking chunk max_send) claimed)
  unfolding writer_step phase_step claim_step
  claim_turn s = refl
