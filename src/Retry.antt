-- ===== src/Retry.antt =====
-- src/uart_rx_retry.c: the policy by which UART reception is restarted.
use nrf_proxy.Base.{Bool, true, false, not, ◌||◌, if◌then◌else◌}
use nrf_proxy.Base.Int.{ℤ, pos, neg, ◌==ℤ◌, ebusy}

unfoldable pub uart_rx_enable_succeeded : ℤ → Bool
uart_rx_enable_succeeded enable_err = (enable_err ==ℤ pos 0) || (enable_err ==ℤ neg ebusy)

unfoldable pub uart_rx_should_schedule_retry : Bool → ℤ → Bool
unfolding uart_rx_enable_succeeded
uart_rx_should_schedule_retry alloc_ok enable_err =
    if not alloc_ok then true else not (uart_rx_enable_succeeded enable_err)

-- The result, and the latch behind the pointer.
unfoldable pub uart_rx_retry_warn_once : Bool → Bool × Bool
uart_rx_retry_warn_once latched = if latched then (false, latched) else (true, true)

unfoldable pub uart_rx_retry_clear_latch : Bool → Bool
uart_rx_retry_clear_latch latched = false
