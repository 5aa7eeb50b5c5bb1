-- ===== src/Bridge/Baud.antt =====
-- `uart_bridge_set_baud`: its result says which rate is in effect.
use nrf_proxy.Base.{
  ℕ, ◌≡◌, ◌≢◌, refl, sym, ap, subst, ◌∙◌, ◌⊎◌, inl, inr, true, false, List, [], ◌∷◌, arith, not,
  not, Bool-cases, if_false, if◌then◌else◌, Option, none, some,
}
use nrf_proxy.Base.Int.{ℤ, pos, neg, ◌==ℤ◌, ==ℤ_iff, efault}
use nrf_proxy.Platform.{Call, History, Platform, cancelled}
use nrf_proxy.RingBuf.{RingBuf}
use nrf_proxy.Bridge.State.{Bridge, log_call}
use nrf_proxy.Bridge.Receive.{start_rx, enable_or_free}
use nrf_proxy.Bridge.Transmit.{stage, tx_kick}
use nrf_proxy.Bridge.Callback.{
  Event, tx_done, tx_aborted, rx_rdy, rx_buf_request, rx_buf_released, rx_disabled, other,
  count_aborted, receive, restart, uart_cb, interrupts,
}
use nrf_proxy.Bridge.Api.{
  Arrivals, apply_baud, quiesce_and_apply, start_or_retry, resume, reconfigure,
  uart_bridge_set_baud,
}
use nrf_proxy.Bridge.Ops.{interrupts-keeps}

-- The rate of the last `uart_configure` that succeeded.
abbrev pub rate : History → Option ℕ
rate [] = none
rate (Call.configure baud err ∷ tr) = if err ==ℤ pos 0 then some baud else rate tr
rate (_ ∷ tr) = rate tr

ℤ-cases : (e : ℤ) → (e ≡ pos 0) ⊎ ((e ==ℤ pos 0) ≡ false) × (e ≢ pos 0)
ℤ-cases e = ground (arith, ==ℤ_iff e (pos 0))

module _ (R : RingBuf) (p : Platform) where
  open R use {Ring}

  tx_kick-rate : (s : Bridge Ring) → rate (tx_kick R p s).1.calls ≡ rate s.calls
  unfolding tx_kick stage
  tx_kick-rate s = ground arith

  restart-rate : (s : Bridge Ring) → rate (restart R p s).1.calls ≡ rate s.calls
  unfolding restart enable_or_free
  restart-rate s = ground arith

  start_or_retry-rate : (s : Bridge Ring) → rate (start_or_retry R p s).1.calls ≡ rate s.calls
  unfolding start_or_retry start_rx
  start_or_retry-rate s = ground arith

  pub uart_cb-rate : (e : Event) (s : Bridge Ring) → rate (uart_cb R p e s).1.calls ≡ rate s.calls
  unfolding uart_cb
  uart_cb-rate tx_done s = tx_kick-rate _
  uart_cb-rate (tx_aborted sent) s = tx_kick-rate _ ∙ (unfold count_aborted in ground arith)
  uart_cb-rate (rx_rdy bytes) s = unfold receive in ground arith
  uart_cb-rate rx_buf_request s = ground arith
  uart_cb-rate (rx_buf_released none) s = refl
  uart_cb-rate (rx_buf_released (some buf)) s = refl
  uart_cb-rate rx_disabled s = elim (Bool-cases s.reconfiguring) [
    | inl busy ↦ rw busy
    | inr free ↦ rw free (restart-rate _)
  ]
  uart_cb-rate other s = refl

  interrupts-rate :
      (es : List Event) (s : Bridge Ring) → rate (interrupts R p es s).1.calls ≡ rate s.calls
  interrupts-rate es s =
      interrupts-keeps R p (λ t. rate t.calls ≡ rate s.calls) (λ e t h. uart_cb-rate e t ∙ h) es s
        refl

  resume-rate : (es : List Event) (s : Bridge Ring) → rate (resume R p es s).1.calls ≡ rate s.calls
  unfolding resume
  resume-rate es s = tx_kick-rate _ ∙ start_or_retry-rate _ ∙ interrupts-rate es _

  -- The result of a rate change and the rate after it.
  abbrev pub Tells : ℕ → Option ℕ → ℤ × Bridge Ring → Type 0
  Tells baud before r =
      (r.0 ≡ pos 0) × (rate r.1.calls ≡ some baud) ⊎ (r.0 ≢ pos 0) × (rate r.1.calls ≡ before)

  apply_baud-Tells :
      (baud : ℕ) (s : Bridge Ring) (before : Option ℕ)
      → rate s.calls ≡ before
      → Tells baud before (apply_baud R p baud s)
  unfolding apply_baud
  apply_baud-Tells baud s before h = elim (ℤ-cases (p.config_get_err s.calls)) [
    | inr (bad, ne) ↦ rw bad (inr (ne, h))
    | inl fine ↦
        rw fine (elim (ℤ-cases (p.configure_err (Call.config_get (pos 0) ∷ s.calls) baud)) [
          | inl good ↦ rw good (inl (refl, refl))
          | inr (bad, ne) ↦ rw bad (inr (ne, h))
        ])
  ]

  quiesce-Tells :
      (baud : ℕ) (es : List Event) (s : Bridge Ring)
      → Tells baud (rate s.calls) (quiesce_and_apply R p baud es s)
  unfolding quiesce_and_apply
  quiesce-Tells baud es s = elim (Bool-cases (p.rx_disable_err s.calls ==ℤ pos 0)) [
    | inl off ↦ rw off (elim (Bool-cases t.rx_quiesced) [
      | inl quiet ↦ rw quiet (apply_baud-Tells baud _ _ after)
      | inr late ↦ rw late (inr ((λ e. cc), after))
    ])
    | inr on ↦ rw on (elim (Bool-cases (p.rx_disable_err s.calls ==ℤ neg efault)) [
      | inl idle ↦ rw idle (apply_baud-Tells baud t _ after)
      | inr failed ↦ rw failed (inr ((λ e. cc on), after))
    ])
  ]
    where
      t : Bridge Ring
      t = (interrupts R p es (log_call (Call.rx_disable (p.rx_disable_err s.calls)) s)).1

      after : rate t.calls ≡ rate s.calls
      after = interrupts-rate es _

  Tells-later :
      (baud : ℕ) (before : Option ℕ) (err : ℤ) (t u : Bridge Ring)
      → rate u.calls ≡ rate t.calls
      → Tells baud before (err, t)
      → Tells baud before (err, u)
  Tells-later baud before err t u e h = rw e h

  reconfigure-Tells :
      (baud : ℕ) (a : Arrivals) (s : Bridge Ring)
      → Tells baud (rate s.calls) (reconfigure R p baud a s)
  unfolding reconfigure
  reconfigure-Tells baud a s =
      Tells-later baud (rate s.calls) (quiesce_and_apply R p baud a.waiting start).0 applied
        (reconfigure R p baud a s).1
        (resume-rate a.resumed (interrupts R p a.configured applied).1
          ∙ interrupts-rate a.configured applied)
        (subst (λ b. Tells baud b (quiesce_and_apply R p baud a.waiting start)) before
          (quiesce-Tells baud a.waiting start))
    where
      flagged : Bridge Ring
      flagged =
          (interrupts R p a.flagged (record s { retry_work = cancelled; reconfiguring = true })).1

      aborted : Bridge Ring
      aborted =
          (interrupts R p a.aborted
            (log_call (Call.tx_abort (p.tx_abort_err flagged.calls)) flagged)).1

      start : Bridge Ring
      start = record aborted { rx_quiesced = false }

      applied : Bridge Ring
      applied = (quiesce_and_apply R p baud a.waiting start).1

      before : rate start.calls ≡ rate s.calls
      before = interrupts-rate a.aborted _ ∙ interrupts-rate a.flagged _

  -- A rate change reports 0 exactly when the driver accepted the new rate, which is then in effect;
  -- on any other result the rate is the one before. So it is whatever events interrupt it, on
  -- every failure of the driver and on the timeout.
  pub set_baud-Tells :
      (baud : ℕ) (a : Arrivals) (s : Bridge Ring)
      → Tells baud (rate s.calls) (uart_bridge_set_baud R p baud a s)
  unfolding uart_bridge_set_baud
  set_baud-Tells baud a s = elim (Bool-cases s.bridge_dev) [
    | inr absent ↦ simp absent (inr ((λ e. cc), refl))
    | inl present ↦
        subst (Tells baud (rate s.calls))
          (sym (
            ap (λ m. m s)
              (if_false (not s.bridge_dev) _ (reconfigure R p baud a) (ap not present))))
          (reconfigure-Tells baud a s)
  ]
