-- ===== src/Device/Turns.antt =====
-- The steps of the writer thread keep the invariant of the link.
use nrf_proxy.Base.{◌≡◌, refl, Bool, arith}
use nrf_proxy.Platform.{Platform}
use nrf_proxy.RingBuf.{RingBuf}
use nrf_proxy.Device.Phase.{
  Phase, waiting, checking, gating, draining, drained, claiming, hooking, sending, releasing,
  reporting, writer_refs,
}
use nrf_proxy.Device.State.{Host, Board, Device}
use nrf_proxy.Device.Thread.{
  wait_step, check_step, gate_step, drain_step, drained_step, claim_step, hook_step, send_step,
  release_step, report_step, phase_step, writer_step,
}
use nrf_proxy.Device.Invariant.{Facts-IsLinked, IsLinked, IsReachable}

module _ (R : RingBuf) (p : Platform) (board : Board) (host : Host) where
  open R use {Ring}

  phase_step-IsLinked :
      (phase : Phase) (s : Device Ring)
      → s.writer ≡ phase
      → IsLinked board s
      → IsLinked board (phase_step R p host phase s)
  unfolding phase_step writer_refs wait_step check_step gate_step drain_step drained_step claim_step
      hook_step send_step release_step report_step
  phase_step-IsLinked waiting s e v = Facts-IsLinked board _ (ground arith)
  phase_step-IsLinked checking s e v = Facts-IsLinked board _ (ground arith)
  phase_step-IsLinked gating s e v = Facts-IsLinked board _ (ground arith)
  phase_step-IsLinked draining s e v = Facts-IsLinked board _ (ground arith)
  phase_step-IsLinked (drained n) s e v = Facts-IsLinked board _ (ground arith)
  phase_step-IsLinked claiming s e v = Facts-IsLinked board _ (ground arith)
  phase_step-IsLinked (hooking chunk max_send) s e v = Facts-IsLinked board _ (ground arith)
  phase_step-IsLinked (sending input sent max_send) s e v = Facts-IsLinked board _ (ground arith)
  phase_step-IsLinked releasing s e v = Facts-IsLinked board _ (ground arith)
  phase_step-IsLinked reporting s e v = Facts-IsLinked board _ (ground arith)

  phase_step-IsReachable :
      (phase : Phase) (s : Device Ring) (w : Bool)
      → IsReachable board w s
      → IsReachable board w (phase_step R p host phase s)
  unfolding phase_step wait_step check_step gate_step drain_step drained_step claim_step hook_step
      send_step release_step report_step
  phase_step-IsReachable waiting s w h = ground arith
  phase_step-IsReachable checking s w h = ground arith
  phase_step-IsReachable gating s w h = ground arith
  phase_step-IsReachable draining s w h = ground arith
  phase_step-IsReachable (drained n) s w h = ground arith
  phase_step-IsReachable claiming s w h = ground arith
  phase_step-IsReachable (hooking chunk max_send) s w h = ground arith
  phase_step-IsReachable (sending input sent max_send) s w h = ground arith
  phase_step-IsReachable releasing s w h = ground arith
  phase_step-IsReachable reporting s w h = ground arith

  pub writer_step-IsLinked :
      (s : Device Ring) → IsLinked board s → IsLinked board (writer_step R p host s)
  unfolding writer_step
  writer_step-IsLinked s v = phase_step-IsLinked s.writer s refl v

  pub writer_step-IsReachable :
      (s : Device Ring) (w : Bool)
      → IsReachable board w s
      → IsReachable board w (writer_step R p host s)
  unfolding writer_step
  writer_step-IsReachable s w h = phase_step-IsReachable s.writer s w h
