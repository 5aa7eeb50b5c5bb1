-- ===== src/Device/Wakeups.antt =====
-- The receive ring between its producers and the writer thread: no byte waits for a wake-up that
-- does not come.
use nrf_proxy.Base.{
  ℕ, ◌+◌, ◌-◌, take, drop, ◌<◌, ◌^◌, ◌≡◌, ◌≢◌, refl, sym, ap, ◌∙◌, ◌⊎◌, inl, inr, subst, Bool, true,
  List, [], ◌∷◌, ◌++◌, arith, length, if_both, ==_iff, ◌==◌,
}
use nrf_proxy.Platform.{Platform}
use nrf_proxy.RingBuf.{RingBuf}
use nrf_proxy.Core.Link.{proxy_may_forward}
use nrf_proxy.Core.Send.{
  proxy_nus_chunk_limit, proxy_next_slice, proxy_send_result, chunk_limit_bounds,
}
use nrf_proxy.Bridge.State.{Bridge}
use nrf_proxy.Bridge.Api.{uart_bridge_rx_is_empty, uart_bridge_rx_claim, uart_bridge_rx_finish}
use nrf_proxy.Bridge.Drain.{claim_empty}
use nrf_proxy.Bridge.Keeps.{report-same}
use nrf_proxy.Bridge.Growth.{Grows}
use nrf_proxy.Device.Phase.{
  Phase, waiting, checking, gating, draining, drained, claiming, hooking, sending, releasing,
  reporting, writer_claimed,
}
use nrf_proxy.Device.State.{Host, Device, Calls}
use nrf_proxy.Device.Thread.{
  wait_step, check_step, gate_step, drain_step, drained_step, claim_step, hook_step, send_step,
  release_step, report_step, phase_step, writer_step, at,
}
use nrf_proxy.Device.Received.{nus_send}
use nrf_proxy.Device.Writer.{forward_snapshot}
use nrf_proxy.Device.Writing.{Verdict_both}

-- What the writer knows of the bytes in the ring at each place.
abbrev pub Fed : Phase → List ℕ → Bool → Type 0
Fed Phase.waiting held ready = (held ≡ []) ⊎ (ready ≡ true)
Fed Phase.reporting held ready = (held ≡ []) ⊎ (ready ≡ true)
Fed Phase.gating held ready = held ≢ []
Fed Phase.claiming held ready = held ≢ []
Fed _ held ready = Unit

append_not_nil : (xs ys : List ℕ) → xs ≢ [] → xs ++ ys ≢ []
append_not_nil [] ys h e = absurd (h refl)
append_not_nil (x ∷ xs) ys h e = cc

Fed-more :
    (phase : Phase) (xs ys : List ℕ) (ready later : Bool)
    → (ys ≡ []) ⊎ (later ≡ true)
    → (ready ≡ true → later ≡ true)
    → Fed phase xs ready
    → Fed phase (xs ++ ys) later
Fed-more Phase.waiting xs ys ready later (inl e) keep (inl f) = inl (rw (e, f) refl)
Fed-more Phase.waiting xs ys ready later (inl e) keep (inr h) = inr (keep h)
Fed-more Phase.waiting xs ys ready later (inr h) keep f = inr h
Fed-more Phase.reporting xs ys ready later (inl e) keep (inl f) = inl (rw (e, f) refl)
Fed-more Phase.reporting xs ys ready later (inl e) keep (inr h) = inr (keep h)
Fed-more Phase.reporting xs ys ready later (inr h) keep f = inr h
Fed-more Phase.gating xs ys ready later w keep f = append_not_nil xs ys f
Fed-more Phase.claiming xs ys ready later w keep f = append_not_nil xs ys f
Fed-more Phase.checking xs ys ready later w keep f = tt
Fed-more Phase.draining xs ys ready later w keep f = tt
Fed-more (Phase.drained n) xs ys ready later w keep f = tt
Fed-more (Phase.hooking chunk n) xs ys ready later w keep f = tt
Fed-more (Phase.sending input sent n) xs ys ready later w keep f = tt
Fed-more Phase.releasing xs ys ready later w keep f = tt

module _ (R : RingBuf) (p : Platform) (host : Host) where
  open R use {
    Ring, contents, pending, claim, claim_some, claim_pending, claim_contents, finish_pending,
    is_empty_iff,
  }

  pub record IsFed (s : Device Ring) : Type 0 where
    -- the claim that is open is the writer's
    pub claims : pending s.bridge.rx_ring ≡ writer_claimed s.writer
    pub fed : Fed s.writer (contents s.bridge.rx_ring) s.bridge.rx_ready

  -- Whatever leaves the writer alone and lets the ring grow.
  pub Grows-IsFed :
      (s t : Device Ring) → t.writer ≡ s.writer → Grows R p s.bridge t.bridge → IsFed s → IsFed t
  Grows-IsFed s t w g v = record {
    claims = g.claims ∙ v.claims ∙ ap writer_claimed (sym w);
    fed =
        subst (λ phase. Fed phase (contents t.bridge.rx_ring) t.bridge.rx_ready) (sym w)
          (subst (λ held. Fed s.writer held t.bridge.rx_ready) (sym g.grown)
            (Fed-more s.writer (contents s.bridge.rx_ring) g.more s.bridge.rx_ready
              t.bridge.rx_ready g.woken g.kept v.fed));
  }

  phase_step-IsFed :
      (phase : Phase) (s : Device Ring)
      → ((tr : Calls) → host.att_mtu tr < 2 ^ 16)
      → s.writer ≡ phase
      → pending s.bridge.rx_ring ≡ writer_claimed phase
      → Fed phase (contents s.bridge.rx_ring) s.bridge.rx_ready
      → IsFed (phase_step R p host phase s)
  unfolding phase_step writer_claimed wait_step check_step gate_step drain_step drained_step
      claim_step hook_step send_step release_step report_step uart_bridge_rx_is_empty
      uart_bridge_rx_claim uart_bridge_rx_finish
  phase_step-IsFed waiting s mtu e c f =
      if_both IsFed s.bridge.rx_ready _ _ (λ _. record { claims = c; fed = tt })
        (λ _. record { claims = rw e c; fed = rw e f })
  phase_step-IsFed checking s mtu e c f =
      if_both IsFed (R.is_empty s.bridge.rx_ring) _ _
        (λ empty. record { claims = c; fed = inl ((is_empty_iff s.bridge.rx_ring c).0 empty) })
        (λ full. record {
          claims = c;
          fed = λ held. cc (full, (is_empty_iff s.bridge.rx_ring c).1 held);
        })
  phase_step-IsFed gating s mtu e c f =
      if_both IsFed (proxy_may_forward (forward_snapshot R p host s)) _ _
        (λ _. record { claims = c; fed = f }) (λ _. record { claims = c; fed = tt })
  phase_step-IsFed draining s mtu e c f =
      let n = length (claim s.bridge.rx_ring (2 ^ 32 - 1)).0 in
      let bridge : Bridge Ring = record s.bridge {
        rx_ring = (claim s.bridge.rx_ring (2 ^ 32 - 1)).1;
      } in
      let claims = claim_pending s.bridge.rx_ring (2 ^ 32 - 1) in
      if_both (λ phase. IsFed (record s { bridge = bridge; writer = phase })) (n == 0)
        Phase.reporting (Phase.drained n)
        (λ z. record {
          claims = omega (arith, claims, (==_iff n 0).0 z);
          fed = inl (
              claim_contents s.bridge.rx_ring _
              ∙ claim_empty R p s.bridge.rx_ring _ c (omega arith) ((==_iff n 0).0 z));
        })
        (λ _. record { claims = omega (arith, claims); fed = tt })
  phase_step-IsFed (drained n) s mtu e c f = record {
    claims = finish_pending s.bridge.rx_ring n (omega arith);
    fed = tt;
  }
  phase_step-IsFed claiming s mtu e c f =
      let max_send = proxy_nus_chunk_limit (host.att_mtu s.calls) in
      let limits = chunk_limit_bounds (host.att_mtu s.calls) (mtu s.calls) in
      let n = length (claim s.bridge.rx_ring max_send).0 in
      if_both IsFed (n == 0) _ _
        (λ z.
          absurd
            (omega (arith, claim_some s.bridge.rx_ring max_send c f limits.0, (==_iff n 0).0 z)))
        (λ _. record { claims = omega (arith, claim_pending s.bridge.rx_ring max_send); fed = tt })
  phase_step-IsFed (hooking chunk max_send) s mtu e c f = record {
    claims = finish_pending s.bridge.rx_ring (length chunk) (omega arith);
    fed = tt;
  }
  phase_step-IsFed (sending input sent max_send) s mtu e c f =
      let slice = proxy_next_slice (length input) sent max_send in
      let bytes = take slice (drop sent input) in
      let t = (nus_send host bytes s).1 in
      if_both IsFed (slice == 0) _ _ (λ _. record { claims = c; fed = tt })
        (λ _.
          Verdict_both IsFed (proxy_send_result (nus_send host bytes s).0)
            (at R p host (Phase.sending input (sent + slice) max_send) t) t
            (at R p host Phase.releasing t) (record { claims = c; fed = tt })
            (record { claims = rw e c; fed = rw e tt }) (record { claims = c; fed = tt }))
  phase_step-IsFed releasing s mtu e c f = record { claims = c; fed = tt }
  phase_step-IsFed reporting s mtu e c f =
      let same = report-same R p s.bridge in
      record { claims = ap pending same.2 ∙ c; fed = rw (same.2, same.3) f }

  pub writer_step-IsFed :
      (s : Device Ring)
      → ((tr : Calls) → host.att_mtu tr < 2 ^ 16)
      → IsFed s
      → IsFed (writer_step R p host s)
  unfolding writer_step
  writer_step-IsFed s mtu v = phase_step-IsFed s.writer s mtu refl v.claims v.fed
