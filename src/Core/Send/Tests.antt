-- ===== src/Core/Send/Tests.antt =====
-- The send policy at concrete values.
use nrf_proxy.Base.{◌≡◌, refl}
use nrf_proxy.Base.Int.{neg, eagain}
use nrf_proxy.Core.Send.{proxy_nus_chunk_limit, proxy_next_slice, proxy_send_result, Verdict}

retries_on_eagain : proxy_send_result (neg eagain) ≡ Verdict.retry
unfolding proxy_send_result
retries_on_eagain = refl

last_slice : proxy_next_slice 512 488 244 ≡ 24
unfolding proxy_next_slice
last_slice = refl

default_mtu : proxy_nus_chunk_limit 23 ≡ 20
unfolding proxy_nus_chunk_limit
default_mtu = refl
