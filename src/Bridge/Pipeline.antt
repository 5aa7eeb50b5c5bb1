-- ===== src/Bridge/Pipeline.antt =====
-- The transmit pipeline keeps the order of the bytes, and does not stall.
use native.Mathlib.Decide.{ℕ_discrete}
use nrf_proxy.Base.{
  ℕ, suc, ◌≡◌, refl, sym, ap, ◌∙◌, ◌≢◌, ◌⊎◌, inl, inr, Bool, true, false, List, [], ◌∷◌, ◌++◌,
  arith, append_assoc, not, length, take, drop, take-append-drop, Bool-cases, if_false, none, some,
}
use nrf_proxy.Base.Int.{pos, ◌==ℤ◌}
use nrf_proxy.Platform.{Call, History, Platform}
use nrf_proxy.RingBuf.{RingBuf}
use nrf_proxy.Bridge.State.{Bridge, M, log_call}
use nrf_proxy.Retry.{uart_rx_retry_warn_once}
use nrf_proxy.Bridge.Receive.{start_rx, enable_or_free, retry_handler}
use nrf_proxy.Bridge.Transmit.{stage, tx_kick, send}
use nrf_proxy.Bridge.Callback.{
  Event, tx_done, tx_aborted, rx_rdy, rx_buf_request, rx_buf_released, rx_disabled, other,
  count_aborted, receive, restart, uart_cb,
}

-- The bytes handed to `uart_tx`, and the bytes that the transmit ring took, in order.
abbrev pub handed : History → List ℕ
handed [] = []
handed (Call.tx bytes err ∷ tr) = handed tr ++ bytes
handed (_ ∷ tr) = handed tr

abbrev pub accepted : History → List ℕ
accepted [] = []
accepted (Call.tx_put bytes n ∷ tr) = accepted tr ++ take n bytes
accepted (_ ∷ tr) = accepted tr

-- The last `uart_tx` was refused.
abbrev pub tx_refused : History → Bool
tx_refused [] = false
tx_refused (Call.tx bytes err ∷ tr) = not (err ==ℤ pos 0)
tx_refused (_ ∷ tr) = tx_refused tr

take-nil_drop : (n : ℕ) (xs : List ℕ) → length (take (suc n) xs) ≡ 0 → xs ≡ []
take-nil_drop n [] h = refl
take-nil_drop n (x ∷ xs) h = absurd (omega arith)

nil_of_length : (xs : List ℕ) → length xs ≡ 0 → xs ≡ []
nil_of_length [] h = refl
nil_of_length (x ∷ xs) h = absurd (omega arith)

module _ (R : RingBuf) (p : Platform) where
  open R use {Ring, contents, get, put, put_contents, get_bytes, get_contents}

  -- What was handed over and what the ring holds make up what the ring took, in order.
  abbrev pub InOrder : Bridge Ring → Type 0
  InOrder s = handed s.calls ++ contents s.tx_ring ≡ accepted s.calls

  -- An idle pipeline has nothing to send, unless the driver refused the last chunk.
  abbrev pub NoStall : Bridge Ring → Type 0
  NoStall s = (s.tx_in_progress ≡ true) ⊎ (contents s.tx_ring ≡ []) ⊎ (tx_refused s.calls ≡ true)

  split : (r : Ring) → (get r 64).0 ++ contents (get r 64).1 ≡ contents r
  split r = rw (get_bytes r 64, get_contents r 64) (take-append-drop 64 (contents r))

  stage-order :
      (s : Bridge Ring) → (stage R s).0 ++ contents (stage R s).1.tx_ring ≡ contents s.tx_ring
  unfolding stage
  stage-order s = ground (arith, split s.tx_ring, nil_of_length (get s.tx_ring 64).0)

  calls-stage : (s : Bridge Ring) → (stage R s).1.calls ≡ s.calls
  unfolding stage
  calls-stage s = ground arith

  empty_stage : (s : Bridge Ring) → length (stage R s).0 ≡ 0 → (stage R s).0 ≡ []
  empty_stage s h = nil_of_length _ h

  -- `uart_tx_kick` hands bytes over from the front of the ring.
  pub tx_kick-InOrder : (s : Bridge Ring) → InOrder s → InOrder (tx_kick R p s).1
  unfolding tx_kick
  tx_kick-InOrder s h = ground (
    arith,
    stage-order s,
    calls-stage s,
    append_assoc (handed s.calls) (stage R s).0 (contents (stage R s).1.tx_ring),
    empty_stage s,
  )

  -- What the locked section leaves: nothing staged means a transfer in flight or an empty ring.
  stage_idle :
      (s : Bridge Ring)
      → s.reconfiguring ≡ false
      → (length (stage R s).0 ≡ 0)
          × ((s.tx_in_progress ≡ true) × ((stage R s).1 ≡ s)
              ⊎ (contents (stage R s).1.tx_ring ≡ []))
        ⊎ (length (stage R s).0 ≢ 0) × ((stage R s).1.tx_in_progress ≡ true)
  stage_idle s h = elim (Bool-cases s.tx_in_progress) [
    | inl busy ↦ inl (unfold stage in rw (busy), inl (busy, unfold stage in rw (busy)))
    | inr free ↦ elim (ℕ_discrete (length (get s.tx_ring 64).0) 0) [
      | yes z ↦
          let c =
            take-nil_drop 63 (contents s.tx_ring) (ap length (sym (get_bytes s.tx_ring 64)) ∙ z) in
          inl (
            unfold stage in rw (free, h, z) refl,
            inr (unfold stage in rw (free, h, z) (get_contents s.tx_ring 64 ∙ ap (drop 64) c)),
          )
      | no nz ↦ inr (unfold stage in ground arith, unfold stage in ground arith)
    ]
  ]

  -- Outside a reconfiguration `uart_tx_kick` leaves no idle pipeline with bytes to send, unless the
  -- driver refused the chunk.
  pub tx_kick-NoStall : (s : Bridge Ring) → s.reconfiguring ≡ false → NoStall (tx_kick R p s).1
  tx_kick-NoStall s h = elim (stage_idle s h) [
    | inl (z, inl (busy, same)) ↦ inl (unfold tx_kick in rw z (rw same busy))
    | inl (z, inr empty) ↦ inr (inl (unfold tx_kick in rw z empty))
    | inr (nz, busy) ↦ unfold tx_kick in ground (arith, busy)
  ]

  -- A step that leaves the transmit side alone.
  pub record Frame (s t : Bridge Ring) : Type 0 where
    pub handed_eq : handed t.calls ≡ handed s.calls
    pub accepted_eq : accepted t.calls ≡ accepted s.calls
    pub refused_eq : tx_refused t.calls ≡ tx_refused s.calls
    pub ring_eq : t.tx_ring ≡ s.tx_ring
    pub busy_eq : t.tx_in_progress ≡ s.tx_in_progress
    pub flag_eq : t.reconfiguring ≡ s.reconfiguring

  pub Frame-InOrder : (s t : Bridge Ring) → Frame s t → InOrder s → InOrder t
  Frame-InOrder s t f h = rw (f.handed_eq, f.accepted_eq, f.ring_eq) h

  pub Frame-NoStall : (s t : Bridge Ring) → Frame s t → NoStall s → NoStall t
  Frame-NoStall s t f h = rw (f.refused_eq, f.busy_eq, f.ring_eq) h

  pub start_rx-Frame : (s : Bridge Ring) → Frame s (start_rx p s).1
  unfolding start_rx
  start_rx-Frame s = ground arith

  enable_or_free-Frame : (buf : ℕ) (s : Bridge Ring) → Frame s (enable_or_free p buf s).1
  unfolding enable_or_free
  enable_or_free-Frame buf s = ground arith

  pub retry_handler-Frame : (s : Bridge Ring) → Frame s (retry_handler p s).1
  unfolding retry_handler uart_rx_retry_warn_once enable_or_free
  retry_handler-Frame s = ground arith

  pub restart-Frame : (s : Bridge Ring) → Frame s (restart R p s).1
  unfolding restart enable_or_free
  restart-Frame s = ground arith

  pub receive-Frame : (bytes : List ℕ) (s : Bridge Ring) → Frame s (receive R bytes s).1
  unfolding receive
  receive-Frame bytes s = ground arith

  pub flag-tx_kick : (s : Bridge Ring) → (tx_kick R p s).1.reconfiguring ≡ s.reconfiguring
  unfolding tx_kick stage
  flag-tx_kick s = ground arith

  pub send-InOrder : (bytes : List ℕ) (s : Bridge Ring) → InOrder s → InOrder (send R p bytes s).1
  unfolding send
  send-InOrder bytes s h = tx_kick-InOrder _ (
      ap (λ c. handed s.calls ++ c) (put_contents s.tx_ring bytes)
      ∙ sym (append_assoc (handed s.calls) (contents s.tx_ring) _)
      ∙ ap (λ l. l ++ take (put s.tx_ring bytes).0 bytes) h)

  -- Every event of the driver keeps the order, and outside a reconfiguration the pipeline going.
  pub uart_cb-InOrder : (e : Event) (s : Bridge Ring) → InOrder s → InOrder (uart_cb R p e s).1
  unfolding uart_cb
  uart_cb-InOrder tx_done s h = tx_kick-InOrder _ h
  uart_cb-InOrder (tx_aborted sent) s h = tx_kick-InOrder _ (unfold count_aborted in ground arith)
  uart_cb-InOrder (rx_rdy bytes) s h = Frame-InOrder s _ (receive-Frame bytes s) h
  uart_cb-InOrder rx_buf_request s h = ground arith
  uart_cb-InOrder (rx_buf_released none) s h = h
  uart_cb-InOrder (rx_buf_released (some buf)) s h = h
  uart_cb-InOrder rx_disabled s h = elim (Bool-cases s.reconfiguring) [
    | inl busy ↦ rw busy h
    | inr free ↦ rw free (Frame-InOrder _ _ (restart-Frame _) h)
  ]
  uart_cb-InOrder other s h = h

  -- UART_RX_DISABLED outside a reconfiguration.
  pub rx_disabled_free :
      (s : Bridge Ring)
      → s.reconfiguring ≡ false
      → uart_cb R p rx_disabled s ≡ restart R p (log_call Call.rx_stopped s)
  unfolding uart_cb
  rx_disabled_free s h =
      ap {A = M Ring (Unit {0})} (λ m. m (log_call Call.rx_stopped s))
        (if_false s.reconfiguring _ _ h)
