-- ===== src/Device/Phase.antt =====
-- Where `ble_write_thread` of src/main.c stands, with the locals that are live there.
use nrf_proxy.Base.{ℕ, List, length}

pub data Phase : Type 0 where
  -- at `k_sem_take`
  waiting : Phase
  -- at the test of the inner loop
  checking : Phase
  -- at the section under `conn_mutex`
  gating : Phase
  -- in `uart_bridge_rx_drain`: at a claim, and with a claim of so many bytes open
  draining : Phase
  drained : ℕ → Phase
  -- with its own reference to the connection: at the claim
  claiming : Phase
  -- with the claimed bytes and `max_send`: at the hook and `uart_bridge_rx_finish`
  hooking : List ℕ → ℕ → Phase
  -- in `send_processed`, with its input, `sent` and `max_send`
  sending : List ℕ → ℕ → ℕ → Phase
  -- at the `bt_conn_unref` that ends a turn of the inner loop
  releasing : Phase
  -- at the drop report
  reporting : Phase

-- The thread's own references to the connection object.
unfoldable pub writer_refs : Phase → ℕ
writer_refs Phase.claiming = 1
writer_refs (Phase.hooking chunk max_send) = 1
writer_refs (Phase.sending input sent max_send) = 1
writer_refs Phase.releasing = 1
writer_refs _ = 0

-- The bytes of the receive ring that the thread has claimed and not finished.
unfoldable pub writer_claimed : Phase → ℕ
writer_claimed (Phase.drained n) = n
writer_claimed (Phase.hooking chunk max_send) = length chunk
writer_claimed _ = 0
