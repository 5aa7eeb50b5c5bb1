-- ===== src/Bridge/Keeps.antt =====
-- A rule for invariants of the history and the transmit ring: what the parts keep, every operation
-- keeps.
use nrf_proxy.Base.{ℕ, ◌≡◌, refl, inl, inr, List, arith, Bool-cases}
use nrf_proxy.Base.Int.{ℤ, pos, neg, ◌==ℤ◌, efault}
use nrf_proxy.Platform.{Call, Platform}
use nrf_proxy.RingBuf.{RingBuf}
use nrf_proxy.Bridge.State.{Bridge, log_call}
use nrf_proxy.Bridge.Receive.{start_rx, retry_handler}
use nrf_proxy.Bridge.Transmit.{tx_kick, send}
use nrf_proxy.Bridge.Callback.{Event, uart_cb, interrupts}
use nrf_proxy.Bridge.Api.{
  Arrivals, apply_baud, quiesce_and_apply, start_or_retry, resume, reconfigure,
  uart_bridge_set_baud, uart_bridge_send, uart_bridge_rx_claim, uart_bridge_rx_finish,
}
use nrf_proxy.Bridge.Report.{uart_bridge_log_drops_if_due}
use nrf_proxy.Bridge.Ops.{
  Op, driver, retry, send_bytes, set_baud, claim, finish, report, step, interrupts-keeps,
}

-- The calls that move no bytes and no blocks.
pub data IsControl : Call → Type 0 where
  disables : (err : ℤ) → IsControl (Call.rx_disable err)
  aborts : (err : ℤ) → IsControl (Call.tx_abort err)
  reads : (err : ℤ) → IsControl (Call.config_get err)
  configures : (baud : ℕ) (err : ℤ) → IsControl (Call.configure baud err)

module _ (R : RingBuf) (p : Platform) where
  open R use {Ring}

  pub report-same :
      (s : Bridge Ring)
      → let t = (uart_bridge_log_drops_if_due p s).1 in
        (t.calls ≡ s.calls)
        × (t.tx_ring ≡ s.tx_ring)
        × (t.rx_ring ≡ s.rx_ring)
        × (t.rx_ready ≡ s.rx_ready)
        × (t.drops_rx ≡ s.drops_rx)
        × (t.drops_tx ≡ s.drops_tx)
        × (t.tx_len ≡ s.tx_len)
  unfolding uart_bridge_log_drops_if_due
  report-same s = ground arith

  pub record Keeps (P : Bridge Ring → Type 0) : Type 0 where
    pub statics :
        (s t : Bridge Ring)
        → t.calls ≡ s.calls
        → t.tx_ring ≡ s.tx_ring
        → t.rx_ring ≡ s.rx_ring
        → t.rx_ready ≡ s.rx_ready
        → t.drops_rx ≡ s.drops_rx
        → t.drops_tx ≡ s.drops_tx
        → t.tx_len ≡ s.tx_len
        → P s
        → P t
    pub control : (c : Call) (s : Bridge Ring) → IsControl c → P s → P (log_call c s)
    pub events : (e : Event) (s : Bridge Ring) → P s → P (uart_cb R p e s).1
    pub starts : (s : Bridge Ring) → P s → P (start_rx p s).1
    pub retries : (s : Bridge Ring) → P s → P (retry_handler p s).1
    pub kicks : (s : Bridge Ring) → P s → P (tx_kick R p s).1
    pub sends : (bytes : List ℕ) (s : Bridge Ring) → P s → P (send R p bytes s).1

  module _ (P : Bridge Ring → Type 0) (k : Keeps P) where
    open k use {statics, control, events, starts, retries, kicks, sends}

    apply_baud-keeps : (baud : ℕ) (s : Bridge Ring) → P s → P (apply_baud R p baud s).1
    unfolding apply_baud
    apply_baud-keeps baud s h =
        let got = control _ s (reads (p.config_get_err s.calls)) h in
        elim (Bool-cases (p.config_get_err s.calls ==ℤ pos 0)) [
          | inl fine ↦ rw fine (control _ _ (configures baud _) got)
          | inr bad ↦ rw bad got
        ]

    quiesce-keeps :
        (baud : ℕ) (es : List Event) (s : Bridge Ring) → P s → P (quiesce_and_apply R p baud es s).1
    unfolding quiesce_and_apply
    quiesce-keeps baud es s h = elim (Bool-cases (p.rx_disable_err s.calls ==ℤ pos 0)) [
      | inl off ↦ rw off (elim (Bool-cases t.rx_quiesced) [
        | inl quiet ↦
            rw quiet
              (apply_baud-keeps baud _ (statics t _ refl refl refl refl refl refl refl after))
        | inr late ↦ rw late (statics t _ refl refl refl refl refl refl refl after)
      ])
      | inr on ↦ rw on (elim (Bool-cases (p.rx_disable_err s.calls ==ℤ neg efault)) [
        | inl idle ↦ rw idle (apply_baud-keeps baud t after)
        | inr failed ↦ rw failed after
      ])
    ]
      where
        t : Bridge Ring
        t = (interrupts R p es (log_call (Call.rx_disable (p.rx_disable_err s.calls)) s)).1

        after : P t
        after = interrupts-keeps R p P events es _ (control _ s (disables _) h)

    start_or_retry-keeps : (s : Bridge Ring) → P s → P (start_or_retry R p s).1
    unfolding start_or_retry
    start_or_retry-keeps s h = elim (Bool-cases ((start_rx p s).0 ==ℤ pos 0)) [
      | inl fine ↦ rw fine (starts s h)
      | inr bad ↦ rw bad (statics _ _ refl refl refl refl refl refl refl (starts s h))
    ]

    resume-keeps : (es : List Event) (s : Bridge Ring) → P s → P (resume R p es s).1
    unfolding resume
    resume-keeps es s h = kicks _ (
        start_or_retry-keeps _
          (interrupts-keeps R p P events es _ (statics s _ refl refl refl refl refl refl refl h)))

    pub set_baud-keeps :
        (baud : ℕ) (a : Arrivals) (s : Bridge Ring) → P s → P (uart_bridge_set_baud R p baud a s).1
    unfolding uart_bridge_set_baud reconfigure
    set_baud-keeps baud a s h = elim (Bool-cases s.bridge_dev) [
      | inr absent ↦ simp absent h
      | inl present ↦ simp present (
          resume-keeps a.resumed _ (
            interrupts-keeps R p P events a.configured _ (
              quiesce-keeps baud a.waiting _ (
                statics _ _ refl refl refl refl refl refl refl (
                  interrupts-keeps R p P events a.aborted _ (
                    control _ _ (aborts _) (
                      interrupts-keeps R p P events a.flagged _
                        (statics s _ refl refl refl refl refl refl refl h))))))))
    ]

    pub report-keeps : (s : Bridge Ring) → P s → P (uart_bridge_log_drops_if_due p s).1
    report-keeps s h =
        let same = report-same s in statics s _ same.0 same.1 same.2 same.3 same.4 same.5 same.6 h

    -- Every operation keeps such an invariant, if the consumer's do.
    pub step-keeps :
        ((r : Ring) (s : Bridge Ring) → P s → P (record s { rx_ring = r }))
        → (o : Op) (s : Bridge Ring) → P s
        → P (step R p o s)
    unfolding step
    step-keeps consumes (driver e) s h = events e s h
    step-keeps consumes retry s h = retries _ (statics s _ refl refl refl refl refl refl refl h)
    step-keeps consumes (send_bytes bytes) s h = unfold uart_bridge_send in sends bytes s h
    step-keeps consumes (set_baud baud a) s h = set_baud-keeps baud a s h
    step-keeps consumes (claim n) s h = unfold uart_bridge_rx_claim in consumes _ s h
    step-keeps consumes (finish n) s h = unfold uart_bridge_rx_finish in consumes _ s h
    step-keeps consumes report s h = report-keeps s h
