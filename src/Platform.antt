-- ===== src/Platform.antt =====
-- What the UART side calls outside the repository: the asynchronous UART driver, the memory slab
-- and the clock of Zephyr. Each call is kept, with its answer, in a history, newest first. An
-- answer is any function of the history before the call, so nothing is assumed of those parts here.
use nrf_proxy.Base.{ℕ, Bool, List}
use nrf_proxy.Base.Int.{ℤ}

pub data Call : Type 0 where
  slab_alloc : ℤ → ℕ → Call
  slab_free : ℕ → Call
  rx_enable : ℕ → ℤ → Call
  rx_buf_rsp : ℕ → ℤ → Call
  rx_disable : ℤ → Call
  tx : List ℕ → ℤ → Call
  tx_abort : ℤ → Call
  config_get : ℤ → Call
  configure : ℕ → ℤ → Call
  callback_set : ℤ → Call
  tx_put : List ℕ → ℕ → Call
  rx_put : List ℕ → ℕ → Call
  -- Four events of the driver: a transfer done, a transfer cut off after so many bytes, a block given
  -- back, and the end of reception.
  tx_over : Call
  tx_cut : ℕ → Call
  released : ℕ → Call
  rx_stopped : Call

abbrev pub History : Type 0
History = List Call

-- The answers: error codes, the block that `k_mem_slab_alloc` yields, and the uptime.
pub record Platform : Type 0 where
  pub slab_alloc_err : History → ℤ
  pub slab_block : History → ℕ
  pub rx_enable_err : History → ℕ → ℤ
  pub rx_buf_rsp_err : History → ℕ → ℤ
  pub rx_disable_err : History → ℤ
  pub tx_err : History → List ℕ → ℤ
  pub tx_abort_err : History → ℤ
  pub config_get_err : History → ℤ
  pub configure_err : History → ℕ → ℤ
  pub callback_set_err : History → ℤ
  pub device_ready : History → Bool
  pub uptime_ms : History → ℕ

-- The last request made of a `struct k_work_delayable`, with the delay in milliseconds. `fired` is
-- an item whose handler the kernel has started since.
pub data Work : Type 0 where
  uninit ready cancelled fired : Work
  rescheduled : ℕ → Work
