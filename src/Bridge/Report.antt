-- ===== src/Bridge/Report.antt =====
-- `uart_bridge_log_drops_if_due`; the result is what the log line prints, if it is printed.
use nrf_proxy.Base.{ℕ, ◌||◌, not, Option, none, some, ◌==◌, if◌then◌else◌}
use nrf_proxy.Base.Int.{ℤ}
use nrf_proxy.Stats.{drop_stats_should_report}
use nrf_proxy.Platform.{Platform}
use nrf_proxy.Bridge.State.{M, drop_report_interval_ms}

-- The two counters and the last transmit error.
pub record DropReport : Type 0 where
  pub rx : ℕ
  pub tx : ℕ
  pub tx_err : ℤ

module _ {Ring : Type 0} (p : Platform) where
  unfoldable pub uart_bridge_log_drops_if_due : M Ring (Option DropReport)
  uart_bridge_log_drops_if_due s =
      let changed = not (s.drops_rx == s.last_rx) || not (s.drops_tx == s.last_tx) in
      let now = p.uptime_ms s.calls in
      if drop_stats_should_report now s.last_report_ms drop_report_interval_ms changed
      then (
        some (record { rx = s.drops_rx; tx = s.drops_tx; tx_err = s.last_tx_err }),
        record s { last_rx = s.drops_rx; last_tx = s.drops_tx; last_report_ms = now },
      )
      else (none, s)
