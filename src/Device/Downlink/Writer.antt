-- ===== src/Device/Downlink/Writer.antt =====
-- The steps of `ble_write_thread`, against the account of the stream.
use native.Mathlib.Decide.{dec_lt}
use nrf_proxy.Base.{
  ℕ, ◌-◌, drop-append_length, ◌≡◌, refl, sym, ap, ◌∙◌, ◌^◌, inl, inr, subst, List, [], ◌++◌, arith,
  length, take, drop, if_both, ◌==◌, take-append-drop, ◌<◌, ◌≢◌, true, false, drop_all, ==_iff,
}
use nrf_proxy.Platform.{Platform}
use nrf_proxy.RingBuf.{RingBuf}
use nrf_proxy.Core.Hooks.{on_uart_rx, hooks_forward}
use nrf_proxy.Core.Link.{proxy_may_forward}
use nrf_proxy.Core.Send.{
  Verdict, proxy_nus_chunk_limit, proxy_next_slice, proxy_send_result, chunk_limit_bounds,
  next_slice-min,
}
use nrf_proxy.Bridge.State.{Bridge}
use nrf_proxy.Bridge.Api.{uart_bridge_rx_is_empty, uart_bridge_rx_claim, uart_bridge_rx_finish}
use nrf_proxy.Bridge.Keeps.{report-same}
use nrf_proxy.Bridge.Growth.{stored}
use nrf_proxy.Device.Phase.{
  Phase, waiting, checking, gating, draining, drained, claiming, hooking, sending, releasing,
  reporting, writer_claimed,
}
use nrf_proxy.Device.State.{Calls, Host, Device}
use nrf_proxy.Device.Thread.{
  wait_step, check_step, gate_step, drain_step, drained_step, claim_step, hook_step, send_step,
  release_step, report_step, phase_step, writer_step,
}
use nrf_proxy.Device.Received.{nus_send}
use nrf_proxy.Device.Writer.{forward_snapshot}
use nrf_proxy.Device.Sending.{Verdict-cases, consumed_ok, retry_failed, dropped_failed}
use nrf_proxy.Device.Aside.{sends}
use nrf_proxy.Device.Lasting.{drop_zero}
use nrf_proxy.Device.Stream.{Reads}
use nrf_proxy.Device.Downlink.{Accounts, Accounts-lose, Accounts-done, Accounts-pass, InAccount}

module _ (R : RingBuf) (p : Platform) (host : Host) where
  open R use {Ring, contents, pending, claim, finish, claim_bytes, claim_contents, finish_contents}

  -- A step of the writer loses bytes: it empties the ring, the hook cuts a chunk that does not
  -- fit `proc_buf`, or the host refuses a notification for good.
  abbrev pub LosesAt : Phase → Device Ring → Type 0
  LosesAt (Phase.drained n) s = Unit
  LosesAt (Phase.hooking chunk max_send) s = length s.writer_buf < length chunk
  LosesAt (Phase.sending input sent max_send) s =
      let slice = proxy_next_slice (length input) sent max_send in
      (slice ≢ 0)
      × (proxy_send_result (host.nus_send_err s.calls (take slice (drop sent input)))
          ≡ Verdict.dropped)
  LosesAt _ s = ⊥

  hook_step-InAccount :
      (May : Type 0) (chunks : List (List ℕ)) (chunk : List ℕ) (max_send : ℕ) (s : Device Ring)
      → pending s.bridge.rx_ring ≡ length chunk
      → Reads (Phase.hooking chunk max_send) (stored s.bridge.calls) (contents s.bridge.rx_ring)
      → Accounts May chunks
          (Phase.hooking chunk max_send)
          (sends s.calls)
          (stored s.bridge.calls)
          (contents s.bridge.rx_ring)
      → (LosesAt (Phase.hooking chunk max_send) s → May)
      → InAccount R p host May chunks (hook_step R p host chunk max_send s)
  unfolding hook_step uart_bridge_rx_finish
  hook_step-InAccount May chunks chunk max_send s c (_, (rest, h))
        (stream, left, gone_before, told, (none_left, limit), whole, e) may =
      let size = length s.writer_buf in
      let cut = drop size chunk in
      let (n, out) = on_uart_rx chunk s.writer_buf in
      let copied = (hooks_forward chunk s.writer_buf).0 in
      let gone =
        finish_contents s.bridge.rx_ring (length chunk) (omega (arith, c))
        ∙ ap (drop (length chunk)) h
        ∙ drop-append_length chunk rest (length chunk) refl in
      let split : contents s.bridge.rx_ring
          ≡ (drop 0 (take n out) ++ cut) ++ contents (finish s.bridge.rx_ring (length chunk)) =
        h
        ∙ ap (λ l. l ++ rest) (sym (take-append-drop size chunk))
        ∙ ap (λ l. (l ++ cut) ++ rest) (sym copied.1 ∙ sym (drop_zero (take n out)))
        ∙ ap (λ l. (drop 0 (take n out) ++ cut) ++ l) (sym gone) in
      (
        stream,
        drop 0 (take n out) ++ cut,
        cut,
        told,
        (refl, limit),
        elim (dec_lt size (length chunk)) [
          | yes over ↦ inr (may over)
          | no fits ↦ inl (drop_all size chunk (omega arith))
        ],
        e
            ∙ ap (λ l. stream ++ (l ++ contents s.bridge.rx_ring)) none_left
            ∙ ap (λ l. stream ++ l) split,
      )

  send_step-InAccount :
      (May : Type 0) (chunks : List (List ℕ)) (input : List ℕ) (sent max_send : ℕ) (s : Device Ring)
      → s.writer ≡ Phase.sending input sent max_send
      → Accounts May chunks
          (Phase.sending input sent max_send)
          (sends s.calls)
          (stored s.bridge.calls)
          (contents s.bridge.rx_ring)
      → (LosesAt (Phase.sending input sent max_send) s → May)
      → InAccount R p host May chunks (send_step R p host input sent max_send s)
  unfolding send_step
  send_step-InAccount May chunks input sent max_send s e v may =
      if_both (InAccount R p host May chunks) (slice == 0) _ _ done (λ more.
        elim (Verdict-cases (proxy_send_result (nus_send host bytes s).0)) [
          | inl consumed ↦ rw consumed (
              rw (consumed_ok _ consumed)
                (Accounts-pass May chunks input sent slice max_send (sends s.calls) took held v))
          | inr (inl retry) ↦ rw retry (rw (retry_failed _ retry, e) v)
          | inr (inr dropped) ↦ rw dropped (rw (dropped_failed _ dropped) (over more dropped))
        ])
    where
      slice : ℕ
      slice = proxy_next_slice (length input) sent max_send

      bytes : List ℕ
      bytes = take slice (drop sent input)

      took : List ℕ
      took = stored s.bridge.calls

      held : List ℕ
      held = contents s.bridge.rx_ring

      sends_on : Type 0
      sends_on = (slice == 0) ≡ false

      done : (slice == 0) ≡ true → Accounts May chunks Phase.releasing (sends s.calls) took held
      done zero_slice =
          let none = (==_iff slice 0).0 zero_slice in
          Accounts-done May chunks input sent max_send (sends s.calls) took held
            (drop_all sent input
              (omega (arith, none, next_slice-min (length input) sent max_send, v.4.1)))
            v

      over :
          sends_on
          → proxy_send_result (nus_send host bytes s).0 ≡ Verdict.dropped
          → Accounts May chunks Phase.releasing (sends s.calls) took held
      over more dropped =
          Accounts-lose May chunks (Phase.sending input sent max_send) (sends s.calls) took [] held
            (may (λ none. cc (more, (==_iff slice 0).1 none), dropped)) v

  phase_step-InAccount :
      (May : Type 0) (chunks : List (List ℕ)) (phase : Phase) (s : Device Ring)
      → s.writer ≡ phase
      → pending s.bridge.rx_ring ≡ writer_claimed phase
      → Reads phase (stored s.bridge.calls) (contents s.bridge.rx_ring)
      → Accounts May chunks phase
          (sends s.calls)
          (stored s.bridge.calls)
          (contents s.bridge.rx_ring)
      → ((tr : Calls) → host.att_mtu tr < 2 ^ 16)
      → (LosesAt phase s → May)
      → InAccount R p host May chunks (phase_step R p host phase s)
  unfolding phase_step writer_claimed wait_step check_step gate_step drain_step drained_step
      claim_step release_step report_step uart_bridge_rx_is_empty uart_bridge_rx_claim
      uart_bridge_rx_finish
  phase_step-InAccount May chunks waiting s e c r v mtu may =
      if_both (InAccount R p host May chunks) s.bridge.rx_ready _ _ (λ _. v) (λ _. rw e v)
  phase_step-InAccount May chunks checking s e c r v mtu may =
      if_both (InAccount R p host May chunks) (R.is_empty s.bridge.rx_ring) _ _ (λ _. v) (λ _. v)
  phase_step-InAccount May chunks gating s e c r v mtu may =
      if_both (InAccount R p host May chunks) (proxy_may_forward (forward_snapshot R p host s)) _ _
        (λ _. v) (λ _. v)
  phase_step-InAccount May chunks draining s e c r v mtu may =
      let max = 2 ^ 32 - 1 in
      let bytes = (claim s.bridge.rx_ring max).0 in
      let claimed : Bridge Ring = record s.bridge { rx_ring = (claim s.bridge.rx_ring max).1 } in
      let kept =
        subst (Accounts May chunks draining (sends s.calls) (stored s.bridge.calls))
          (sym (claim_contents s.bridge.rx_ring max)) v in
      if_both
        (λ phase. InAccount R p host May chunks (record s { bridge = claimed; writer = phase }))
        (length bytes == 0) Phase.reporting (Phase.drained (length bytes)) (λ _. kept) (λ _. kept)
  phase_step-InAccount May chunks (drained n) s e c r v mtu may =
      let held = contents s.bridge.rx_ring in
      let of_ring = Accounts May chunks (drained n) (sends s.calls) (stored s.bridge.calls) in
      subst (Accounts May chunks draining (sends s.calls) (stored s.bridge.calls))
        (sym (finish_contents s.bridge.rx_ring n (omega (arith, c))))
        (Accounts-lose May chunks (drained n) (sends s.calls) (stored s.bridge.calls) (take n held)
          (drop n held) (may tt) (subst of_ring (sym (take-append-drop n held)) v))
  phase_step-InAccount May chunks claiming s e c r v mtu may =
      let max_send = proxy_nus_chunk_limit (host.att_mtu s.calls) in
      let chunk = (claim s.bridge.rx_ring max_send).0 in
      let kept =
        subst (Accounts May chunks claiming (sends s.calls) (stored s.bridge.calls))
          (sym (claim_contents s.bridge.rx_ring max_send)) v in
      let limit = (chunk_limit_bounds (host.att_mtu s.calls) (mtu s.calls)).0 in
      let (stream, left, cut, told, none_left, whole, took) = kept in
      if_both (InAccount R p host May chunks) (length chunk == 0) _ _ (λ _. kept)
        (λ _. (stream, left, cut, told, (none_left, limit), whole, took))
  phase_step-InAccount May chunks (hooking chunk max_send) s e c r v mtu may =
      hook_step-InAccount May chunks chunk max_send s c r v may
  phase_step-InAccount May chunks (sending input sent max_send) s e c r v mtu may =
      send_step-InAccount May chunks input sent max_send s e v may
  phase_step-InAccount May chunks releasing s e c r v mtu may = v
  phase_step-InAccount May chunks reporting s e c r v mtu may =
      let same = report-same R p s.bridge in rw (same.0, same.2) v

  -- The writer's next step loses bytes.
  abbrev pub Loses : Device Ring → Type 0
  Loses s = LosesAt s.writer s

  pub writer_step-InAccount :
      (May : Type 0) (chunks : List (List ℕ)) (s : Device Ring)
      → pending s.bridge.rx_ring ≡ writer_claimed s.writer
      → Reads s.writer (stored s.bridge.calls) (contents s.bridge.rx_ring)
      → InAccount R p host May chunks s
      → ((tr : Calls) → host.att_mtu tr < 2 ^ 16)
      → (Loses s → May)
      → InAccount R p host May chunks (writer_step R p host s)
  unfolding writer_step
  writer_step-InAccount May chunks s c r v mtu may =
      phase_step-InAccount May chunks s.writer s refl c r v mtu may
