-- ===== src/Core/Send.antt =====
-- The NUS send policy of src/proxy_core.c.
mod Tests
use nrf_proxy.Base.{
  ℕ, suc, ◌+◌, ◌-◌, ◌%◌, ◌^◌, ◌≤◌, ◌<◌, ◌≡◌, ◌⊎◌, ◌↔◌, Bool, ◌||◌, arith, ltb, leb, if◌then◌else◌,
  ◌==◌, min,
}
use nrf_proxy.Base.Int.{ℤ, pos, neg, ◌==ℤ◌, ==ℤ_iff, enomem, eagain}

abbrev pub att_header_len : ℕ
att_header_len = 3

abbrev pub chunk_fallback : ℕ
chunk_fallback = 20

-- The cast to uint16_t is the `% 2 ^ 16`.
unfoldable pub proxy_nus_chunk_limit : ℕ → ℕ
proxy_nus_chunk_limit att_mtu =
    if ltb att_header_len att_mtu then (att_mtu - att_header_len) % 2 ^ 16 else chunk_fallback

-- `out_len - sent` is taken only when `sent < out_len`.
unfoldable pub proxy_next_slice : ℕ → ℕ → ℕ → ℕ
proxy_next_slice out_len sent max_send =
    if leb out_len sent
    then 0
    else (if ltb (out_len - sent) max_send then out_len - sent else max_send)

-- `enum proxy_send_verdict`
pub data Verdict : Type 0 where
  consumed retry dropped : Verdict

unfoldable pub proxy_send_result : ℤ → Verdict
proxy_send_result err =
    if err ==ℤ pos 0
    then Verdict.consumed
    else if (err ==ℤ neg enomem) || (err ==ℤ neg eagain)
    then Verdict.retry
    else Verdict.dropped

-- For every MTU a notification of the limit, with its header, fits the MTU where that exceeds the
-- header, and the limit is never 0: the writer always makes progress.
pub chunk_limit_bounds :
    (mtu : ℕ)
    → mtu < 2 ^ 16
    → (0 < proxy_nus_chunk_limit mtu)
      × (3 < mtu → proxy_nus_chunk_limit mtu + 3 ≡ mtu)
      × (mtu ≤ 3 → proxy_nus_chunk_limit mtu ≡ 20)
unfolding proxy_nus_chunk_limit
chunk_limit_bounds mtu h = ground arith

-- A slice is as much of what is left as one notification takes.
pub next_slice-min :
    (out_len sent max_send : ℕ)
    → proxy_next_slice out_len sent max_send ≡ min (out_len - sent) max_send
unfolding proxy_next_slice
next_slice-min out_len sent max_send = ground arith
