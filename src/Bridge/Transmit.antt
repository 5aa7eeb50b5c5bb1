-- ===== src/Bridge/Transmit.antt =====
-- The transmit pipeline: `uart_tx_kick` and `uart_bridge_send`.
use nrf_proxy.Base.{ℕ, true, false, ◌||◌, List, [], ◌==◌, if◌then◌else◌, not, length, memcpy}
use nrf_proxy.Base.Int.{ℤ, pos, ◌==ℤ◌}
use nrf_proxy.Platform.{Call, Platform}
use nrf_proxy.RingBuf.{RingBuf}
use nrf_proxy.Bridge.State.{Bridge, M, ◌>>=◌, ◌>>◌, done, log_call, add32, uart_buf_size, uart_tx}

module _ (R : RingBuf) where
  open R use {Ring, get, put}

  -- What follows a failed `uart_tx`: the staged bytes are counted as dropped.
  abbrev pub drop_staged : ℕ → ℤ → M Ring (Unit {0})
  drop_staged len err s = (
    tt,
    record s {
      drops_tx = add32 s.drops_tx len;
      last_tx_err = err;
      tx_in_progress = false;
      tx_len = 0;
    },
  )

  -- The section under `irq_lock`: up to 64 bytes move from the ring to the staging buffer, which
  -- are the bytes returned.
  unfoldable pub stage : M Ring (List ℕ)
  stage s =
      if s.tx_in_progress || s.reconfiguring
      then ([], s)
      else let (bytes, ring) = get s.tx_ring uart_buf_size in
        let s' : Bridge Ring = record s {
          tx_ring = ring;
          tx_buf = memcpy s.tx_buf bytes (length bytes);
        } in
        if length bytes == 0
        then ([], s')
        else (bytes, record s' { tx_in_progress = true; tx_len = length bytes })

  -- `ring_buf_put` on the transmit ring.
  abbrev pub tx_put : List ℕ → M Ring (Unit {0})
  tx_put bytes s =
      let (n, ring) = put s.tx_ring bytes in
      (tt, log_call (Call.tx_put bytes n) (record s { tx_ring = ring }))

module _ (R : RingBuf) (p : Platform) where
  open R use {Ring}

  unfoldable pub tx_kick : M Ring (Unit {0})
  tx_kick = do
    bytes ← stage R
    if length bytes == 0 then done else (do
      err ← uart_tx p bytes
      if not (err ==ℤ pos 0) then drop_staged R (length bytes) err else done)

  unfoldable pub send : List ℕ → M Ring (Unit {0})
  send bytes = do tx_put R bytes; tx_kick
