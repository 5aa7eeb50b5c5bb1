-- ===== src/Device/Startup/Begin.antt =====
-- The state in which `main` leaves the device, where every history of it begins.
use nrf_proxy.Base.{
  ℕ, ◌≤◌, ◌<◌, ◌≡◌, refl, sym, ap, ◌∙◌, ◌⊎◌, inl, inr, subst, Bool, some, [], length, All,
}
use nrf_proxy.Platform.{Platform}
use nrf_proxy.RingBuf.{RingBuf}
use nrf_proxy.Core.Identity.Derive.{IsSized}
use nrf_proxy.Bridge.Api.{uart_bridge_init}
use nrf_proxy.Bridge.Growth.{stored}
use nrf_proxy.Bridge.Pipeline.{InOrder}
use nrf_proxy.Bridge.Ledger.{Balanced}
use nrf_proxy.Bridge.Drops.{Counted}
use nrf_proxy.Bridge.Order.{IsRunning}
use nrf_proxy.Bridge.Recovery.{IsReceiving}
use nrf_proxy.Bridge.Init.{IsFresh, IsBegun, init-IsBegun, init-IsReceiving}
use nrf_proxy.Device.Phase.{Phase, writer_claimed}
use nrf_proxy.Device.State.{Host, Board, Device, Status}
use nrf_proxy.Device.Boot.{main}
use nrf_proxy.Device.Idle.{IsIdle}
use nrf_proxy.Device.Booting.{IsBooted, main_boots}
use nrf_proxy.Device.Aside.{sends}
use nrf_proxy.Device.Wakeups.{Fed, IsFed}
use nrf_proxy.Device.Stream.{Reads}
use nrf_proxy.Device.Downlink.{Notified, Accounts, nothing}
use nrf_proxy.Device.Startup.{Left, main-Left}

module _ (R : RingBuf) (p : Platform) (board : Board) (host : Host) where
  open R use {Ring, contents, pending}

  -- The promises of the bridge, the agreement of ring, writer and streams, and reception live, unless
  -- the error LED says that it is not.
  pub record IsOrderly (t : Device Ring) : Type 0 where
    pub order : InOrder R p t.bridge
    pub blocks : Balanced R p t.bridge
    pub counts : Counted R p t.bridge
    pub running : IsRunning R p t.bridge
    pub receiving : (IsReceiving R p t.bridge) ⊎ (t.current_status ≡ Status.error)
    pub fed : IsFed R p host t
    pub reads : Reads t.writer (stored t.bridge.calls) (contents t.bridge.rx_ring)
    pub account :
        Accounts ⊥ [] t.writer (sends t.calls) (stored t.bridge.calls) (contents t.bridge.rx_ring)

  -- The statics of the two files as the linker leaves them.
  pub record IsUnused (s : Device Ring) : Type 0 where
    pub idle : IsIdle board s
    pub fresh : IsFresh R p s.bridge
    pub waits : s.writer ≡ Phase.waiting
    pub unheard : s.calls ≡ []

  -- The bridge after `uart_bridge_init`, with the thread at its first wait.
  begun-IsOrderly :
      (s t : Device Ring)
      → IsUnused s
      → t.bridge ≡ (uart_bridge_init R p s.bridge).1
      → t.writer ≡ s.writer
      → sends t.calls ≡ sends s.calls
      → (IsReceiving R p t.bridge) ⊎ (t.current_status ≡ Status.error)
      → IsOrderly t
  unfolding writer_claimed
  begun-IsOrderly s t v b w n r =
      let begun = subst (IsBegun R p) (sym b) (init-IsBegun R p s.bridge v.fresh) in
      let phase = w ∙ v.waits in
      let silent = n ∙ ap sends v.unheard in
      let same = begun.unheard ∙ sym begun.empty in
      record {
        order = begun.order;
        blocks = begun.blocks;
        counts = begun.counts;
        running = begun.running;
        receiving = r;
        fed = record {
          claims = begun.unclaimed ∙ sym (ap writer_claimed phase);
          fed =
              subst (λ at. Fed at (contents t.bridge.rx_ring) t.bridge.rx_ready) (sym phase)
                (inl begun.empty);
        };
        reads =
            subst (λ at. Reads at (stored t.bridge.calls) (contents t.bridge.rx_ring)) (sym phase)
              ([], same);
        account =
            subst
              (λ at.
                Accounts ⊥ [] at (sends t.calls) (stored t.bridge.calls)
                  (contents t.bridge.rx_ring))
              (sym phase)
              (
                [],
                [],
                [],
                subst (λ notes. Notified ⊥ [] notes []) (sym silent) nothing,
                refl,
                inl refl,
                same,
              );
      }

  Left-IsOrderly : (s t : Device Ring) → IsUnused s → Left R p board host s t → IsOrderly t
  Left-IsOrderly s t v ((b, w, n), ok) = begun-IsOrderly s t v b w n (elim ok [
    | inl live ↦ inl (subst (IsReceiving R p) (sym b) (init-IsReceiving R p s.bridge live))
    | inr shown ↦ inr shown
  ])

  -- However the boot goes, from the statics as the linker leaves them: `main` returns, in a state
  -- where every history may begin. The relay is off whatever the button, the bonds and the errors; the
  -- device is reachable, or the status is the error because the UART, Bluetooth or the NUS service
  -- did not come up; an advertiser that is up has the accept-list filter exactly in the locked
  -- mode; the LEDs show the status; the bridge keeps its promises, with reception live or the status
  -- the error; and the ring, the writer thread and the streams agree, with nothing sent or lost. The
  -- buffer of the hardware ID has at least the six bytes that the derivation reads.
  pub boot_begins :
      (at_boot : Bool) (pressed : ℕ → Bool) (s : Device Ring)
      → IsUnused s
      → IsSized s.identity
      → 6 ≤ length host.id_bytes
      → All (λ b. b < 256) host.id_bytes
      → (t : Device Ring) × (main R p board host at_boot pressed s ≡ some t)
        × IsBooted R p board host t
        × IsOrderly t
  boot_begins at_boot pressed s v sized len bytes =
      let (t, e, booted) = main_boots R p board host at_boot pressed s v.idle sized len bytes in
      (t, e, booted, Left-IsOrderly s t v (main-Left R p board host at_boot pressed s t e))
