-- ===== src/Device/State.antt =====
-- The statics of src/main.c, the board's devicetree as far as the code reads it, and the calls of
-- the Bluetooth host, which are kept with their answers in a history, newest first.
use nrf_proxy.Base.{ℕ, Bool, true, ◌&&◌, List, ◌∷◌}
use nrf_proxy.Base.Int.{ℤ}
use nrf_proxy.Platform.{Work}
use nrf_proxy.Core.Identity.{Identity}
use nrf_proxy.Bridge.State.{Bridge}
use nrf_proxy.Device.Phase.{Phase}

-- `enum status_state`
pub data Status : Type 0 where
  connected advertising error : Status

-- The variants of the advertising parameters: the interval, and whether only the accept list may
-- connect.
pub record AdvParam : Type 0 where
  pub slow : Bool
  pub filtered : Bool

pub data HostCall : Type 0 where
  adv_start : AdvParam → ℤ → HostCall
  adv_stop : ℤ → HostCall
  disconnect : ℤ → HostCall
  accept_clear : ℤ → HostCall
  accept_add : ℕ → ℤ → HostCall
  nus_send : List ℕ → ℤ → HostCall
  id_create : List ℕ → ℤ → HostCall
  enable : ℤ → HostCall
  load : HostCall
  set_name : List ℕ → ℤ → HostCall
  nus_init : ℤ → HostCall
  unpair : ℤ → HostCall
  -- An event of the host: a link came up.
  link_up : HostCall

abbrev pub Calls : Type 0
Calls = List HostCall

-- The host's answers, any functions of the history before the call. `bonds` is what
-- `bt_foreach_bond` visits, `id_len` and `id_bytes` what `hwinfo_get_device_id` yields.
pub record Host : Type 0 where
  pub adv_start_err : Calls → AdvParam → ℤ
  pub adv_stop_err : Calls → ℤ
  pub disconnect_err : Calls → ℤ
  pub accept_clear_err : Calls → ℤ
  pub accept_add_err : Calls → ℕ → ℤ
  pub nus_send_err : Calls → List ℕ → ℤ
  pub id_create_err : Calls → List ℕ → ℤ
  pub enable_err : Calls → ℤ
  pub set_name_err : Calls → ℤ
  pub nus_init_err : Calls → ℤ
  pub unpair_err : Calls → ℤ
  pub bonds : Calls → List ℕ
  pub att_mtu : Calls → ℕ
  pub id_len : ℤ
  pub id_bytes : List ℕ

-- Which pins the devicetree names, and which of them are ready.
pub record Board : Type 0 where
  pub connected_port : Bool
  pub advertising_port : Bool
  pub error_port : Bool
  pub connected_ready : Bool
  pub advertising_ready : Bool
  pub error_ready : Bool
  -- the roles connected and advertising name the same pin, where both are named
  pub one_pin : Bool
  pub relay_port : Bool
  pub relay_ready : Bool
  pub button_port : Bool
  pub button_ready : Bool
  pub device_name : List ℕ
  -- CONFIG_BT_SETTINGS
  pub settings : Bool

-- One LED has the roles connected and advertising.
abbrev pub shared : Board → Bool
shared board = board.one_pin && board.connected_port && board.advertising_port

pub record Device (Ring : Type 0) : Type 0 where
  pub current_status : Status
  -- the logical levels that the roles' pins were last driven to
  pub connected_led : Bool
  pub advertising_led : Bool
  pub error_led : Bool
  pub relay_pin : Bool
  pub adv_blink_work : Work
  pub adv_slow_phase : Bool
  pub adv_blink_on : Bool
  pub identity : Identity
  pub mfg_data : List ℕ
  -- `ad[1].data_len`
  pub name_len : ℕ
  -- `current_conn` is not NULL
  pub current_conn : Bool
  -- references to the connection object that the file holds, the writer thread's included
  pub conn_refs : ℕ
  pub link_secure : Bool
  pub locked_mode : Bool
  pub relay_enabled : Bool
  pub relay_grace_work : Work
  pub adv_slow_work : Work
  pub adv_retry_work : Work
  pub adv_active : Bool
  pub security_timeout_work : Work
  -- the filter accept list of the controller
  pub accept_list : List ℕ
  pub bridge : Bridge Ring
  -- `ble_write_thread`: where it stands, and its `proc_buf`
  pub writer : Phase
  pub writer_buf : List ℕ
  pub calls : Calls

abbrev pub log_host : {Ring : Type 0} → HostCall → Device Ring → Device Ring
log_host c s = record s { calls = c ∷ s.calls }

-- `k_sem_give` on the binary semaphore that the UART side shares.
abbrev pub wake_writer : {Ring : Type 0} → Device Ring → Device Ring
wake_writer s = record s { bridge = record s.bridge { rx_ready = true } }
