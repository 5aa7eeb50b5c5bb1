-- ===== src/Bridge/Growth.antt =====
-- What the producers do to the receive ring: they append, and wake the consumer when they do.
use nrf_proxy.Base.{
  ℕ, zero, suc, ◌<◌, ◌≡◌, refl, sym, ap, ◌∙◌, ◌⊎◌, inl, inr, Bool, true, List, [], ◌∷◌, ◌++◌, arith,
  append_assoc, append-nil, take, none, some,
}
use nrf_proxy.Retry.{uart_rx_retry_warn_once}
use nrf_proxy.Platform.{Call, History, Platform}
use nrf_proxy.RingBuf.{RingBuf}
use nrf_proxy.Bridge.State.{Bridge, log_call}
use nrf_proxy.Bridge.Receive.{start_rx, enable_or_free, retry_handler}
use nrf_proxy.Bridge.Transmit.{stage, tx_kick, send}
use nrf_proxy.Bridge.Callback.{
  Event, tx_done, tx_aborted, rx_rdy, rx_buf_request, rx_buf_released, rx_disabled, other,
  count_aborted, receive, restart, uart_cb,
}
use nrf_proxy.Bridge.Keeps.{IsControl, disables, aborts, reads, configures, Keeps}

-- The bytes that the receive ring took, in order.
abbrev pub stored : History → List ℕ
stored [] = []
stored (Call.rx_put bytes n ∷ tr) = stored tr ++ take n bytes
stored (_ ∷ tr) = stored tr

woken_or_none :
    (n : ℕ) (bytes : List ℕ) (ready : Bool)
    → (0 < n → ready ≡ true)
    → (take n bytes ≡ []) ⊎ (ready ≡ true)
woken_or_none zero bytes ready wakes = inl refl
woken_or_none (suc n) bytes ready wakes = inr (wakes (omega arith))

module _ (R : RingBuf) (p : Platform) where
  open R use {Ring, contents, pending, put, put_contents, put_pending}

  -- From `s` to `t` the ring has grown at its end by what it took, an open claim stays as it is, a byte stored has
  -- left the semaphore given, and nobody has taken it.
  pub record Grows (s t : Bridge Ring) : Type 0 where
    pub more : List ℕ
    pub grown : contents t.rx_ring ≡ contents s.rx_ring ++ more
    pub logged : stored t.calls ≡ stored s.calls ++ more
    pub claims : pending t.rx_ring ≡ pending s.rx_ring
    pub woken : (more ≡ []) ⊎ (t.rx_ready ≡ true)
    pub kept : s.rx_ready ≡ true → t.rx_ready ≡ true

  -- A step that leaves the receive side alone.
  abbrev pub IsQuiet : Bridge Ring → Bridge Ring → Type 0
  IsQuiet s t =
      (t.rx_ring ≡ s.rx_ring) × (t.rx_ready ≡ s.rx_ready) × (stored t.calls ≡ stored s.calls)

  pub Grows-start : (s : Bridge Ring) → Grows s s
  Grows-start s = record {
    more = [];
    grown = sym (append-nil (contents s.rx_ring));
    logged = sym (append-nil (stored s.calls));
    claims = refl;
    woken = inl refl;
    kept = λ h. h;
  }

  pub Grows-quiet : (s t u : Bridge Ring) → IsQuiet t u → Grows s t → Grows s u
  Grows-quiet s t u (ring, ready, calls) g = record {
    more = g.more;
    grown = rw ring g.grown;
    logged = rw calls g.logged;
    claims = rw ring g.claims;
    woken = rw ready g.woken;
    kept = rw ready g.kept;
  }

  stored-Grows :
      (s t : Bridge Ring) (bytes : List ℕ)
      → t.rx_ring ≡ (put s.rx_ring bytes).1
      → stored t.calls ≡ stored s.calls ++ take (put s.rx_ring bytes).0 bytes
      → (0 < (put s.rx_ring bytes).0 → t.rx_ready ≡ true)
      → (s.rx_ready ≡ true → t.rx_ready ≡ true)
      → Grows s t
  stored-Grows s t bytes ring calls wakes keeps = record {
    more = take (put s.rx_ring bytes).0 bytes;
    logged = calls;
    grown = ap contents ring ∙ put_contents s.rx_ring bytes;
    claims = ap pending ring ∙ put_pending s.rx_ring bytes;
    woken = woken_or_none (put s.rx_ring bytes).0 bytes t.rx_ready wakes;
    kept = keeps;
  }

  both :
      (xs ys : List ℕ) (ready later : Bool)
      → (xs ≡ []) ⊎ (ready ≡ true)
      → (ready ≡ true → later ≡ true)
      → (ys ≡ []) ⊎ (later ≡ true)
      → (xs ++ ys ≡ []) ⊎ (later ≡ true)
  both xs ys ready later (inl e) keep (inl f) = inl (rw (e, f) refl)
  both xs ys ready later (inr h) keep (inl f) = inr (keep h)
  both xs ys ready later g keep (inr h) = inr h

  pub Grows-trans : (s t u : Bridge Ring) → Grows s t → Grows t u → Grows s u
  Grows-trans s t u g h = record {
    more = g.more ++ h.more;
    grown =
        h.grown ∙ ap (λ l. l ++ h.more) g.grown ∙ append_assoc (contents s.rx_ring) g.more h.more;
    logged =
        h.logged ∙ ap (λ l. l ++ h.more) g.logged ∙ append_assoc (stored s.calls) g.more h.more;
    claims = h.claims ∙ g.claims;
    woken = both g.more h.more t.rx_ready u.rx_ready g.woken h.kept h.woken;
    kept = λ e. h.kept (g.kept e);
  }

  receive-Grows : (bytes : List ℕ) (s : Bridge Ring) → Grows s (receive R bytes s).1
  unfolding receive
  receive-Grows bytes s =
      stored-Grows s _ bytes (ground arith) (ground arith) (ground arith) (ground arith)

  tx_kick-IsQuiet : (s : Bridge Ring) → IsQuiet s (tx_kick R p s).1
  unfolding tx_kick stage
  tx_kick-IsQuiet s = ground arith

  send-IsQuiet : (bytes : List ℕ) (s : Bridge Ring) → IsQuiet s (send R p bytes s).1
  unfolding send
  send-IsQuiet bytes s = tx_kick-IsQuiet _

  start_rx-IsQuiet : (s : Bridge Ring) → IsQuiet s (start_rx p s).1
  unfolding start_rx
  start_rx-IsQuiet s = ground arith

  retry_handler-IsQuiet : (s : Bridge Ring) → IsQuiet s (retry_handler p s).1
  unfolding retry_handler uart_rx_retry_warn_once enable_or_free
  retry_handler-IsQuiet s = ground arith

  restart-IsQuiet : (s : Bridge Ring) → IsQuiet s (restart R p s).1
  unfolding restart enable_or_free
  restart-IsQuiet s = ground arith

  control-stored :
      (c : Call) (s : Bridge Ring) → IsControl c → stored (log_call c s).calls ≡ stored s.calls
  control-stored c s (disables err) = refl
  control-stored c s (aborts err) = refl
  control-stored c s (reads err) = refl
  control-stored c s (configures baud err) = refl

  -- Every event of the driver.
  pub uart_cb-Grows : (e : Event) (s : Bridge Ring) → Grows s (uart_cb R p e s).1
  unfolding uart_cb
  uart_cb-Grows tx_done s = Grows-quiet s s _ (tx_kick-IsQuiet _) (Grows-start s)
  uart_cb-Grows (tx_aborted sent) s =
      Grows-quiet s s _ (unfold count_aborted tx_kick stage in ground arith) (Grows-start s)
  uart_cb-Grows (rx_rdy bytes) s = receive-Grows bytes s
  uart_cb-Grows rx_buf_request s = Grows-quiet s s _ (ground arith) (Grows-start s)
  uart_cb-Grows (rx_buf_released none) s = Grows-start s
  uart_cb-Grows (rx_buf_released (some buf)) s =
      Grows-quiet s s _ (refl, refl, refl) (Grows-start s)
  uart_cb-Grows rx_disabled s =
      Grows-quiet s s _ (unfold restart enable_or_free in ground arith) (Grows-start s)
  uart_cb-Grows other s = Grows-start s

  pub Growth-Keeps : (s : Bridge Ring) → Keeps R p (Grows s)
  Growth-Keeps s = record {
    statics =
        λ t u calls tx ring ready drx dtx len g. Grows-quiet s t u (ring, ready, ap stored calls) g;
    control = λ c t control g. Grows-quiet s t _ (refl, refl, control-stored c t control) g;
    events = λ e t g. Grows-trans s t _ g (uart_cb-Grows e t);
    starts = λ t g. Grows-quiet s t _ (start_rx-IsQuiet t) g;
    retries = λ t g. Grows-quiet s t _ (retry_handler-IsQuiet t) g;
    kicks = λ t g. Grows-quiet s t _ (tx_kick-IsQuiet t) g;
    sends = λ bytes t g. Grows-quiet s t _ (send-IsQuiet bytes t) g;
  }
