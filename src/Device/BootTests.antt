-- ===== src/Device/BootTests.antt =====
-- The boot with the button held, on a host that forgets its bonds.
use nrf_proxy.Base.{◌≡◌, refl, some, List, ℕ, true, [], ◌∷◌, arith, ◌<◌, All}
use nrf_proxy.RingBuf.Fifo.{Fifo, fifo}
use nrf_proxy.Bridge.Samples.{driver_calm, started}
use nrf_proxy.Device.State.{Calls, HostCall, Host, Device}
use nrf_proxy.Device.Boot.{main}
use nrf_proxy.Device.Wiping.{IsOpen, held_button_opens}
use nrf_proxy.Device.Phase.{writer_refs}
use nrf_proxy.Device.Booting.{IsBooted}
use nrf_proxy.Device.Startup.Begin.{IsUnused, IsOrderly, boot_begins}
use nrf_proxy.Device.Samples.{board, host, reset}

-- One bond, until it is removed.
abbrev left : Calls → List ℕ
left (HostCall.unpair err ∷ tr) = []
left _ = 7 ∷ []

abbrev forgetful : Host
forgetful = record host { bonds = left }

octets : All (λ b. b < 256) host.id_bytes
octets = (
  omega arith,
  (
    omega arith,
    (omega arith, (omega arith, (omega arith, (omega arith, (omega arith, (omega arith, tt)))))),
  ),
)

held_button_opens_example :
    (t : Device Fifo) × (main fifo driver_calm board forgetful true (λ i. true) reset ≡ some t)
    × IsOpen t
held_button_opens_example =
    held_button_opens fifo driver_calm board forgetful (λ tr. refl) (λ i. true) reset (refl, refl)
      refl (record { addr = refl; mfg_id = refl }) (omega arith) octets

-- The statics before `main`, with both rings empty and no call made.
abbrev unused : Device Fifo
unused = record reset {
  bridge = record started {
    rx_ring = record { held = []; claimed = 0; room = 2048; run = 100 };
    calls = [];
  };
}

unused-IsUnused : IsUnused fifo driver_calm board host unused
unfolding writer_refs
unused-IsUnused = record {
  idle = record {
    down = refl;
    open_link = refl;
    silent = refl;
    free = refl;
    pin_off = refl;
    relay_off = refl;
    dim = (λ h. refl, λ h. refl, λ h. refl);
  };
  fresh = record {
    unused = refl;
    no_input = refl;
    no_output = refl;
    unclaimed = refl;
    counters = (refl, refl, refl);
    flag = refl;
  };
  waits = refl;
  unheard = refl;
}

boot_begins_example :
    (t : Device Fifo) × (main fifo driver_calm board host true (λ i. true) unused ≡ some t)
    × IsBooted fifo driver_calm board host t
    × IsOrderly fifo driver_calm board host t
boot_begins_example =
    boot_begins fifo driver_calm board host true (λ i. true) unused unused-IsUnused
      (record { addr = refl; mfg_id = refl }) (omega arith) octets
