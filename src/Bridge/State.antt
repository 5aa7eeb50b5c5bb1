-- ===== src/Bridge/State.antt =====
-- The statics of src/uart_bridge.c, and its calls to the driver and the slab, which are kept in the
-- history with their answers.
use nrf_proxy.Base.{ℕ, ◌+◌, ◌%◌, ◌^◌, Bool, List, ◌∷◌}
use nrf_proxy.Base.Int.{ℤ}
use nrf_proxy.Platform.{Call, History, Platform, Work, rescheduled}

pub record Bridge (Ring : Type 0) : Type 0 where
  pub rx_ring : Ring
  pub tx_ring : Ring
  pub tx_buf : List ℕ
  pub tx_in_progress : Bool
  pub tx_len : ℕ
  -- `bridge_dev` is not NULL
  pub bridge_dev : Bool
  -- the count, 0 or 1, of the binary semaphore behind `rx_ready_sem`
  pub rx_ready : Bool
  pub reconfiguring : Bool
  pub rx_quiesced : Bool
  -- the atomic counters as uint32_t patterns
  pub drops_rx : ℕ
  pub drops_tx : ℕ
  pub last_tx_err : ℤ
  pub retry_work : Work
  pub retry_warned : Bool
  -- the statics of `uart_bridge_log_drops_if_due`
  pub last_rx : ℕ
  pub last_tx : ℕ
  pub last_report_ms : ℕ
  pub calls : History

abbrev pub uart_buf_size : ℕ
uart_buf_size = 64

abbrev pub retry_delay_ms : ℕ
retry_delay_ms = 100

abbrev pub drop_report_interval_ms : ℕ
drop_report_interval_ms = 10000

-- A function of the file: from the statics to its result and the new statics.
abbrev pub M : Type 0 → Type 0 → Type 0
M Ring A = Bridge Ring → A × Bridge Ring

abbrev pub pure : {Ring A : Type 0} → A → M Ring A
pure a s = (a, s)

infixl 5 ◌>>=◌ ◌>>◌
abbrev pub ◌>>=◌ : {Ring A B : Type 0} → M Ring A → (A → M Ring B) → M Ring B
◌>>=◌ m f s = f (m s).0 (m s).1

abbrev pub ◌>>◌ : {Ring B : Type 0} → M Ring (Unit {0}) → M Ring B → M Ring B
◌>>◌ m k s = k (m s).1

-- A field of the statics.
abbrev pub gets : {Ring A : Type 0} → (Bridge Ring → A) → M Ring A
gets f s = (f s, s)

abbrev pub modify : {Ring : Type 0} → (Bridge Ring → Bridge Ring) → M Ring (Unit {0})
modify f s = (tt, f s)

abbrev pub done : {Ring : Type 0} → M Ring (Unit {0})
done s = (tt, s)

abbrev pub reschedule_retry : {Ring : Type 0} → M Ring (Unit {0})
reschedule_retry s = (tt, record s { retry_work = rescheduled retry_delay_ms })

abbrev pub log_call : {Ring : Type 0} → Call → Bridge Ring → Bridge Ring
log_call c s = record s { calls = c ∷ s.calls }

-- `atomic_add` on a 32-bit counter.
abbrev pub add32 : ℕ → ℕ → ℕ
add32 a b = (a + b) % 2 ^ 32

module _ {Ring : Type 0} (p : Platform) where
  -- `k_mem_slab_alloc`: the error code, and the block if it is 0.
  abbrev pub slab_alloc : M Ring (ℤ × ℕ)
  slab_alloc s =
      let err = p.slab_alloc_err s.calls in
      let block = p.slab_block s.calls in ((err, block), log_call (Call.slab_alloc err block) s)

  abbrev pub slab_free : ℕ → M Ring (Unit {0})
  slab_free buf s = (tt, log_call (Call.slab_free buf) s)

  abbrev pub rx_enable : ℕ → M Ring ℤ
  rx_enable buf s =
      let err = p.rx_enable_err s.calls buf in (err, log_call (Call.rx_enable buf err) s)

  abbrev pub rx_buf_rsp : ℕ → M Ring (Unit {0})
  rx_buf_rsp buf s =
      let err = p.rx_buf_rsp_err s.calls buf in (tt, log_call (Call.rx_buf_rsp buf err) s)

  abbrev pub rx_disable : M Ring ℤ
  rx_disable s = let err = p.rx_disable_err s.calls in (err, log_call (Call.rx_disable err) s)

  abbrev pub uart_tx : List ℕ → M Ring ℤ
  uart_tx bytes s = let err = p.tx_err s.calls bytes in (err, log_call (Call.tx bytes err) s)

  abbrev pub tx_abort : M Ring (Unit {0})
  tx_abort s = let err = p.tx_abort_err s.calls in (tt, log_call (Call.tx_abort err) s)

  abbrev pub config_get : M Ring ℤ
  config_get s = let err = p.config_get_err s.calls in (err, log_call (Call.config_get err) s)

  abbrev pub configure : ℕ → M Ring ℤ
  configure baud s =
      let err = p.configure_err s.calls baud in (err, log_call (Call.configure baud err) s)

  abbrev pub callback_set : M Ring ℤ
  callback_set s = let err = p.callback_set_err s.calls in (err, log_call (Call.callback_set err) s)
