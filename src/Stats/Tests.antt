-- ===== src/Stats/Tests.antt =====
-- Inputs of src/drop_stats.c.
use nrf_proxy.Base.{◌+◌, ◌-◌, ◌^◌, ◌≡◌, refl, true, arith, leb}
use nrf_proxy.Stats.{drop_stats_rx_overflow, drop_stats_should_report, should_report_across_wrap}

overflow_partial : drop_stats_rx_overflow 64 40 ≡ 24
unfolding drop_stats_rx_overflow
overflow_partial = refl

-- 6 s after a report that stood 1 s before the wrap, with an interval of 10 s.
should_report_across_wrap_example :
    drop_stats_should_report 5000 (2 ^ 32 - 1000) 10000 true ≡ leb 10000 6000
should_report_across_wrap_example =
    should_report_across_wrap (2 ^ 32 + 5000) (2 ^ 32 - 1000) 10000 true (omega arith) (omega arith)
