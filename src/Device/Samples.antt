-- ===== src/Device/Samples.antt =====
-- A board, a Bluetooth host and states of the device, for the tests.
use nrf_proxy.Base.{◌≡◌, refl, inl, true, false, [], ◌∷◌, arith, replicate}
use nrf_proxy.Base.Int.{pos}
use nrf_proxy.Platform.{Work}
use nrf_proxy.RingBuf.Fifo.{Fifo}
use nrf_proxy.Core.Command.{Kind, Cmd}
use nrf_proxy.Bridge.Samples.{started}
use nrf_proxy.Bridge.Api.{Arrivals}
use nrf_proxy.Core.Send.{Verdict, proxy_send_result}
use nrf_proxy.Device.Phase.{Phase, writer_refs}
use nrf_proxy.Device.State.{Host, Board, Device, Status}
use nrf_proxy.Device.Invariant.{IsLinked}
use nrf_proxy.Device.Sending.{Settles}

abbrev pub board : Board
board = record {
  connected_port = true;
  advertising_port = true;
  error_port = false;
  connected_ready = true;
  advertising_ready = true;
  error_ready = false;
  one_pin = false;
  relay_port = true;
  relay_ready = true;
  button_port = true;
  button_ready = true;
  device_name = 78 ∷ 80 ∷ [];
  settings = true;
}

-- A host that takes every call, with one bond.
abbrev pub host : Host
host = record {
  adv_start_err = λ tr param. pos 0;
  adv_stop_err = λ tr. pos 0;
  disconnect_err = λ tr. pos 0;
  accept_clear_err = λ tr. pos 0;
  accept_add_err = λ tr addr. pos 0;
  nus_send_err = λ tr bytes. pos 0;
  id_create_err = λ tr addr. pos 0;
  enable_err = λ tr. pos 0;
  set_name_err = λ tr. pos 0;
  nus_init_err = λ tr. pos 0;
  unpair_err = λ tr. pos 0;
  bonds = λ tr. 7 ∷ [];
  att_mtu = λ tr. 23;
  id_len = pos 8;
  id_bytes = 1 ∷ 2 ∷ 3 ∷ 4 ∷ 5 ∷ 6 ∷ 7 ∷ 8 ∷ [];
}

-- The statics before `main`.
abbrev pub reset : Device Fifo
reset = record {
  current_status = Status.connected;
  connected_led = false;
  advertising_led = false;
  error_led = false;
  relay_pin = false;
  adv_blink_work = Work.uninit;
  adv_slow_phase = false;
  adv_blink_on = false;
  identity = record {
    addr = replicate 6 0;
    name = replicate 20 0;
    mfg_id = replicate 4 0;
    addr_valid = false;
  };
  mfg_data = 255 ∷ 255 ∷ 78 ∷ 80 ∷ 0 ∷ 0 ∷ 0 ∷ 0 ∷ [];
  name_len = 0;
  current_conn = false;
  conn_refs = 0;
  link_secure = false;
  locked_mode = false;
  relay_enabled = false;
  relay_grace_work = Work.uninit;
  adv_slow_work = Work.uninit;
  adv_retry_work = Work.uninit;
  adv_active = false;
  security_timeout_work = Work.uninit;
  accept_list = [];
  bridge = started;
  writer = Phase.waiting;
  writer_buf = replicate 512 0;
  calls = [];
}

-- The owner on the link with the relay on, and how that came to be.
abbrev pub riding : Device Fifo
riding = record reset {
  current_conn = true;
  conn_refs = 1;
  link_secure = true;
  relay_pin = true;
  relay_enabled = true;
  current_status = Status.connected;
  connected_led = true;
}

pub riding-IsLinked : IsLinked board riding
unfolding writer_refs
riding-IsLinked = record {
  secure = λ h. refl;
  one = λ h. refl;
  held = λ h. inl (refl, refl);
  wired = λ h. refl;
  pin = refl;
  watched = λ h k. cc;
  counted = refl;
  shown = λ h. refl;
  blinks = λ h. cc;
}

pub takes_all : proxy_send_result (pos 0) ≡ Verdict.retry → ⊥
unfolding proxy_send_result
takes_all h = cc

pub settled : Settles host 0
settled = record {
  waits = λ tr. 0;
  bounded = λ tr. omega arith;
  shrinks = λ tr bytes h. absurd (takes_all h);
}

abbrev pub no_cmd : Cmd
no_cmd = record { kind = Kind.none_cmd; baud = 0; ack = replicate 16 0; ack_len = 0 }

abbrev pub no_arrivals : Arrivals
no_arrivals = record { flagged = []; aborted = []; waiting = []; configured = []; resumed = [] }
