-- ===== src/Stats.antt =====
-- src/drop_stats.c: the accounting of silent drops. Numbers are uint32_t.
mod Tests
use nrf_proxy.Base.{
  ℕ, ◌+◌, ◌-◌, ◌%◌, ◌^◌, ◌≤◌, ◌<◌, ◌≡◌, ap, Bool, true, false, arith, ltb, leb, not, if◌then◌else◌,
}

unfoldable pub drop_stats_rx_overflow : ℕ → ℕ → ℕ
drop_stats_rx_overflow attempted queued = if ltb queued attempted then attempted - queued else 0

-- `now_ms - last_report_ms` is the subtraction of uint32_t.
unfoldable pub drop_stats_should_report : ℕ → ℕ → ℕ → Bool → Bool
drop_stats_should_report now_ms last_report_ms interval_ms counters_changed =
    if not counters_changed
    then false
    else leb interval_ms ((now_ms + 2 ^ 32 - last_report_ms) % 2 ^ 32)

pub overflow-add :
    (attempted queued : ℕ)
    → queued ≤ attempted
    → drop_stats_rx_overflow attempted queued + queued ≡ attempted
unfolding drop_stats_rx_overflow
overflow-add attempted queued h = ground arith

-- On a clock that wraps at 2^32 ms, a report fires exactly when a counter changed and the interval
-- has passed since the last report, as long as less than 2^32 ms have.
pub should_report_across_wrap :
    (t last interval : ℕ) (changed : Bool)
    → last ≤ t
    → t < last + 2 ^ 32
    → drop_stats_should_report (t % 2 ^ 32) (last % 2 ^ 32) interval changed
      ≡ (if changed then leb interval (t - last) else false)
unfolding drop_stats_should_report
should_report_across_wrap t last interval false h k = ground arith
should_report_across_wrap t last interval true h k = ap (leb interval) (omega arith)
