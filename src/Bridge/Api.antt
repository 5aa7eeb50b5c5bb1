-- ===== src/Bridge/Api.antt =====
-- The public functions of src/uart_bridge.c but the drop report.
use nrf_proxy.Base.{
  ℕ, zero, suc, ◌-◌, ◌^◌, Bool, true, false, Option, none, some, List, ◌==◌, if◌then◌else◌, not,
  length,
}
use nrf_proxy.Base.Int.{ℤ, pos, neg, ◌==ℤ◌, enodev, efault, etimedout}
use nrf_proxy.Platform.{Platform, ready, cancelled}
use nrf_proxy.RingBuf.{RingBuf}
use nrf_proxy.Bridge.State.{
  Bridge, M, pure, ◌>>=◌, ◌>>◌, gets, modify, done, reschedule_retry, rx_disable, tx_abort,
  config_get, configure, callback_set,
}
use nrf_proxy.Bridge.Receive.{start_rx}
use nrf_proxy.Bridge.Transmit.{tx_kick, send}
use nrf_proxy.Bridge.Callback.{Event, interrupts}

-- The driver's events while `uart_bridge_set_baud` runs, by the place where they interrupt it.
pub record Arrivals : Type 0 where
  pub flagged : List Event
  pub aborted : List Event
  pub waiting : List Event
  pub configured : List Event
  pub resumed : List Event

module _ (R : RingBuf) (p : Platform) where
  open R use {Ring, claim, finish, is_empty}

  unfoldable pub uart_bridge_init : M Ring ℤ
  uart_bridge_init = do
    modify (λ s. record s { bridge_dev = true; retry_work = ready })
    up ← gets (λ s. p.device_ready s.calls)
    if not up
        then pure (neg enodev)
        else (do err ← callback_set p; if not (err ==ℤ pos 0) then pure err else start_rx p)

  -- `k_sem_take` with a timeout, after the events of the wait: 0 takes the semaphore, and the count
  -- stays 0 on a timeout.
  abbrev pub take_quiesced : M Ring Bool
  take_quiesced s = (s.rx_quiesced, record s { rx_quiesced = false })

  -- From `uart_config_get` to the label `restart`.
  unfoldable pub apply_baud : ℕ → M Ring ℤ
  apply_baud baud = do
    got ← config_get p
    if not (got ==ℤ pos 0) then pure got else configure p baud

  -- From `uart_rx_disable` to the label `restart`, with the events of the wait.
  unfoldable pub quiesce_and_apply : ℕ → List Event → M Ring ℤ
  quiesce_and_apply baud waiting = do
    err ← rx_disable p
    interrupts R p waiting
    if err ==ℤ pos 0
        then (do quiet ← take_quiesced; if quiet then apply_baud baud else pure (neg etimedout))
        else (if err ==ℤ neg efault then apply_baud baud else pure err)

  -- Reception started again, or left to the retry work.
  unfoldable pub start_or_retry : M Ring (Unit {0})
  start_or_retry = do err ← start_rx p; if err ==ℤ pos 0 then done else reschedule_retry

  -- From the label `restart` to the end.
  unfoldable pub resume : List Event → M Ring (Unit {0})
  resume resumed = do
    modify (λ s. record s { reconfiguring = false })
    interrupts R p resumed
    start_or_retry
    tx_kick R p

  -- The function behind its null check.
  unfoldable pub reconfigure : ℕ → Arrivals → M Ring ℤ
  reconfigure baud arrivals = do
    modify (λ s. record s { retry_work = cancelled; reconfiguring = true })
    interrupts R p arrivals.flagged
    tx_abort p
    interrupts R p arrivals.aborted
    modify (λ s. record s { rx_quiesced = false })
    err ← quiesce_and_apply baud arrivals.waiting
    interrupts R p arrivals.configured
    resume arrivals.resumed
    pure err

  unfoldable pub uart_bridge_set_baud : ℕ → Arrivals → M Ring ℤ
  uart_bridge_set_baud baud arrivals = do
    dev ← gets (λ s. s.bridge_dev)
    if not dev then pure (neg enodev) else reconfigure baud arrivals

  unfoldable pub uart_bridge_send : List ℕ → M Ring (Unit {0})
  uart_bridge_send bytes = send R p bytes

  unfoldable pub uart_bridge_rx_is_empty : M Ring Bool
  uart_bridge_rx_is_empty s = (is_empty s.rx_ring, s)

  unfoldable pub uart_bridge_rx_claim : ℕ → M Ring (List ℕ)
  uart_bridge_rx_claim max s =
      let (bytes, ring) = claim s.rx_ring max in (bytes, record s { rx_ring = ring })

  -- The bytes finished are those of the claim `bytes`, cut at `consumed`.
  unfoldable pub uart_bridge_rx_finish : ℕ → M Ring (Unit {0})
  uart_bridge_rx_finish consumed s = (tt, record s { rx_ring = finish s.rx_ring consumed })

  abbrev pub uint32_max : ℕ
  uint32_max = 2 ^ 32 - 1

  -- The loop of `uart_bridge_rx_drain`; `none` when the fuel runs out.
  unfoldable pub drain_loop : ℕ → Ring → Option Ring
  drain_loop zero ring = none
  drain_loop (suc fuel) ring =
      let (bytes, claimed) = claim ring uint32_max in
      let rest = drain_loop fuel (finish claimed (length bytes)) in
      if length bytes == 0 then some claimed else rest

  unfoldable pub uart_bridge_rx_drain : ℕ → Bridge Ring → Option (Bridge Ring)
  uart_bridge_rx_drain fuel s = elim (drain_loop fuel s.rx_ring) [
    | none ↦ none
    | some ring ↦ some (record s { rx_ring = ring })
  ]
