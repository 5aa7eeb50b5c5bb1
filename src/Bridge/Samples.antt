-- ===== src/Bridge/Samples.antt =====
-- A driver and a state of the UART side, for the tests.
use nrf_proxy.Base.{true, false, [], ◌∷◌, replicate}
use nrf_proxy.Base.Int.{pos, neg, ebusy}
use nrf_proxy.Platform.{Platform, Call, Work}
use nrf_proxy.RingBuf.Fifo.{Fifo}
use nrf_proxy.Bridge.State.{Bridge}

-- A driver that accepts every call, but finds reception running.
abbrev pub driver_calm : Platform
driver_calm = record {
  slab_alloc_err = λ tr. pos 0;
  slab_block = λ tr. 7;
  rx_enable_err = λ tr block. neg ebusy;
  rx_buf_rsp_err = λ tr block. pos 0;
  rx_disable_err = λ tr. pos 0;
  tx_err = λ tr bytes. pos 0;
  tx_abort_err = λ tr. pos 0;
  config_get_err = λ tr. pos 0;
  configure_err = λ tr baud. pos 0;
  callback_set_err = λ tr. pos 0;
  device_ready = λ tr. true;
  uptime_ms = λ tr. 20000;
}

-- Just started: the driver holds the one block allocated.
abbrev pub started : Bridge Fifo
started = record {
  rx_ring = record { held = 9 ∷ 8 ∷ []; claimed = 0; room = 2048; run = 1 };
  tx_ring = record { held = []; claimed = 0; room = 2048; run = 100 };
  tx_buf = replicate 64 0;
  tx_in_progress = false;
  tx_len = 0;
  bridge_dev = true;
  rx_ready = false;
  reconfiguring = false;
  rx_quiesced = false;
  drops_rx = 0;
  drops_tx = 0;
  last_tx_err = pos 0;
  retry_work = Work.ready;
  retry_warned = false;
  last_rx = 0;
  last_tx = 0;
  last_report_ms = 0;
  calls = Call.rx_enable 7 (pos 0) ∷ Call.slab_alloc (pos 0) 7 ∷ [];
}
