-- ===== src/Device/Composition.antt =====
-- The contract of the UART bridge, kept by the program that uses it.
use nrf_proxy.Base.{◌-◌, ◌^◌, sym, inl, inr, subst, true, false, Bool, arith, length}
use nrf_proxy.Platform.{Platform}
use nrf_proxy.RingBuf.{RingBuf}
use nrf_proxy.Core.Send.{proxy_nus_chunk_limit}
use nrf_proxy.Bridge.State.{Bridge}
use nrf_proxy.Bridge.Ops.{Op, step}
use nrf_proxy.Bridge.Keeps.{step-keeps}
use nrf_proxy.Bridge.Pipeline.{InOrder}
use nrf_proxy.Bridge.Order.{IsRunning, step-IsRunning, InOrder-Keeps}
use nrf_proxy.Bridge.Ledger.{Balanced, Balanced-Keeps}
use nrf_proxy.Bridge.Drops.{Counted, Counted-Keeps}
use nrf_proxy.Bridge.Recovery.{IsReceiving, step-IsReceiving}
use nrf_proxy.Device.Phase.{
  Phase, waiting, checking, gating, draining, drained, claiming, hooking, sending, releasing,
  reporting,
}
use nrf_proxy.Device.State.{Host, Board, Device}
use nrf_proxy.Device.Thread.{
  wait_step, check_step, gate_step, drain_step, drained_step, claim_step, hook_step, send_step,
  release_step, report_step, phase_step, writer_step,
}
use nrf_proxy.Device.Aside.{Aside, received-keeps}
use nrf_proxy.Device.Effects.{Feeds, from_phone, from_driver, from_retry, Step-cases}
use nrf_proxy.Device.System.{World, Step, Steps, Steps-keeps}

module _ (R : RingBuf) (p : Platform) (board : Board) (host : Host) where
  open R use {Ring}

  -- What the bridge's operations keep, whether or not the writer has been woken.
  pub record IsContract (P : Bridge Ring → Type 0) : Type 0 where
    pub ops : (o : Op) (b : Bridge Ring) → P b → P (step R p o b)
    pub ready : (b : Bridge Ring) (w : Bool) → P b → P (record b { rx_ready = w })

  module _ (P : Bridge Ring → Type 0) (k : IsContract P) where
    Aside-keeps : (s t : Device Ring) → Aside s t → P s.bridge → P t.bridge
    Aside-keeps s t (w, inl e, _) h = subst P (sym e) h
    Aside-keeps s t (w, inr e, _) h = subst P (sym e) (k.ready s.bridge true h)

    Feeds-keeps : (s t : Device Ring) → Feeds R p board host s t → P s.bridge → P t.bridge
    unfolding step
    Feeds-keeps _ _ (from_phone s t bytes cmd scratch arrivals e) h =
        (received-keeps R p board host P (λ sent b g. k.ops (Op.send_bytes sent) b g)
          (λ baud a b g. k.ops (Op.set_baud baud a) b g) bytes cmd scratch arrivals s t e h).0
    Feeds-keeps _ _ (from_driver s e) h = k.ops (Op.driver e) s.bridge h
    Feeds-keeps _ _ (from_retry s) h = k.ops Op.retry s.bridge h

    -- The bridge after a step of the writer: as it was, or after one of its operations.
    phase_step-keeps :
        (phase : Phase) (s : Device Ring) → P s.bridge → P (phase_step R p host phase s).bridge
    unfolding phase_step step wait_step check_step gate_step drain_step drained_step claim_step
        hook_step send_step release_step report_step
    phase_step-keeps waiting s h = let g = k.ready s.bridge false h in ground arith
    phase_step-keeps checking s h = ground arith
    phase_step-keeps gating s h = ground arith
    phase_step-keeps draining s h = k.ops (Op.claim (2 ^ 32 - 1)) s.bridge h
    phase_step-keeps (drained n) s h = k.ops (Op.finish n) s.bridge h
    phase_step-keeps claiming s h =
        let g = k.ops (Op.claim (proxy_nus_chunk_limit (host.att_mtu s.calls))) s.bridge h in
        ground arith
    phase_step-keeps (hooking chunk max_send) s h = k.ops (Op.finish (length chunk)) s.bridge h
    phase_step-keeps (sending input sent max_send) s h = ground arith
    phase_step-keeps releasing s h = h
    phase_step-keeps reporting s h = k.ops Op.report s.bridge h

    Step-keeps-contract :
        (a b : World Ring) → Step R p board host a b → P a.device.bridge → P b.device.bridge
    unfolding writer_step
    Step-keeps-contract a b step h = elim (Step-cases R p board host a b step) [
      | inl turn ↦
          subst (λ (s : Device Ring). P s.bridge) (sym turn)
            (phase_step-keeps a.device.writer a.device h)
      | inr (inl aside) ↦ Aside-keeps a.device b.device aside h
      | inr (inr feeds) ↦ Feeds-keeps a.device b.device feeds h
    ]

    pub contract-kept :
        (a b : World Ring) → Steps R p board host a b → P a.device.bridge → P b.device.bridge
    contract-kept a b steps h =
        Steps-keeps R p board host (λ c. P c.device.bridge) Step-keeps-contract a b steps h

  -- What the bridge promises of its state.
  pub record IsHealthy (b : Bridge Ring) : Type 0 where
    -- bytes go out in the order in which the transmit ring took them
    pub order : InOrder R p b
    -- the blocks of the receive slab balance
    pub blocks : Balanced R p b
    -- the drop counters tell what was lost
    pub counts : Counted R p b
    -- no reconfiguration is left open, and no byte waits beside an idle transmitter
    pub running : IsRunning R p b
    -- reception is live, or its restart is scheduled
    pub receiving : IsReceiving R p b

  IsHealthy-ops : (o : Op) (b : Bridge Ring) → IsHealthy b → IsHealthy (step R p o b)
  IsHealthy-ops o b v = record {
    order = step-keeps R p (InOrder R p) (InOrder-Keeps R p) (λ r t k. k) o b v.order;
    blocks = step-keeps R p (Balanced R p) (Balanced-Keeps R p) (λ r t k. k) o b v.blocks;
    counts = step-keeps R p (Counted R p) (Counted-Keeps R p) (λ r t k. k) o b v.counts;
    running = step-IsRunning R p o b v.running;
    receiving = step-IsReceiving R p o b v.running v.receiving;
  }

  IsHealthy-ready :
      (b : Bridge Ring) (w : Bool) → IsHealthy b → IsHealthy (record b { rx_ready = w })
  IsHealthy-ready b w v = record {
    order = v.order;
    blocks = v.blocks;
    counts = v.counts;
    running = record { flag = v.running.flag; going = v.running.going };
    receiving = v.receiving;
  }

  -- The whole program keeps the promises of the UART bridge: if they hold at the start, then over
  -- every history of link events, timers, received data and commands, interrupts and single steps
  -- of the writer thread, in any order, the bytes handed to the UART followed by those still in
  -- the transmit ring are those that the ring took, in order; the blocks of the receive slab
  -- balance, up to one for each answer to a buffer request that the driver refused; the drop
  -- counters tell, modulo 2^32, what was lost; no byte waits beside an idle transmitter unless the
  -- driver refused the last transfer; and reception is live or its restart is scheduled.
  pub bridge_contract_holds :
      (a b : World Ring)
      → IsHealthy a.device.bridge
      → Steps R p board host a b
      → IsHealthy b.device.bridge
  bridge_contract_holds a b v steps =
      contract-kept IsHealthy (record { ops = IsHealthy-ops; ready = IsHealthy-ready }) a b steps v

  -- The transmit pipeline stays in order.
  pub ordered_throughout :
      (a b : World Ring)
      → Steps R p board host a b
      → InOrder R p a.device.bridge
      → InOrder R p b.device.bridge
  ordered_throughout a b steps h =
      contract-kept (InOrder R p)
        (record {
          ops = step-keeps R p (InOrder R p) (InOrder-Keeps R p) (λ r t k. k);
          ready = λ c w k. k;
        })
        a b steps h
