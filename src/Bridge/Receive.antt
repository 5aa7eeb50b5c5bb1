-- ===== src/Bridge/Receive.antt =====
-- Starting and restarting reception: `uart_bridge_start_rx` and `uart_rx_retry_handler`.
use nrf_proxy.Base.{ℕ, Bool, true, false, if◌then◌else◌, not}
use nrf_proxy.Base.Int.{ℤ, pos, neg, ◌==ℤ◌, ebusy}
use nrf_proxy.Platform.{Platform}
use nrf_proxy.Retry.{uart_rx_enable_succeeded, uart_rx_retry_warn_once, uart_rx_retry_clear_latch}
use nrf_proxy.Bridge.State.{
  M, pure, ◌>>=◌, ◌>>◌, gets, done, reschedule_retry, slab_alloc, slab_free, rx_enable,
}

-- The latch, set; the warning itself is only a log line.
abbrev pub warn_once : {Ring : Type 0} → M Ring (Unit {0})
warn_once s = (tt, record s { retry_warned = (uart_rx_retry_warn_once s.retry_warned).1 })

abbrev pub clear_latch : {Ring : Type 0} → M Ring (Unit {0})
clear_latch s = (tt, record s { retry_warned = uart_rx_retry_clear_latch s.retry_warned })

module _ {Ring : Type 0} (p : Platform) where
  unfoldable pub start_rx : M Ring ℤ
  start_rx = do
    (err, buf) ← slab_alloc p
    if not (err ==ℤ pos 0) then pure err else (do
      enabled ← rx_enable p buf
      if not (enabled ==ℤ pos 0) then (do slab_free p buf; pure enabled) else pure enabled)

  -- The tail of a restart with the block `buf`, shared by the handler and the callback in the
  -- source's text: `true` when reception is live.
  unfoldable pub enable_or_free : ℕ → M Ring Bool
  enable_or_free buf = do
    err ← rx_enable p buf
    if uart_rx_enable_succeeded err
        then (do (if err ==ℤ neg ebusy then slab_free p buf else done); clear_latch; pure true)
        else (do slab_free p buf; pure false)

  unfoldable pub retry_handler : M Ring (Unit {0})
  retry_handler = do
    busy ← gets (λ s. s.reconfiguring)
    if busy then done else (do
      (err, buf) ← slab_alloc p
      if not (err ==ℤ pos 0) then (do warn_once; reschedule_retry) else (do
        live ← enable_or_free buf
        if live then done else (do warn_once; reschedule_retry)))
