-- ===== src/Transceiver/Platform.antt =====
-- src/transceiver/DW3000Controller.cpp: the calls of the driver, the pins and the clock, their
-- answers, and the members of the controller.
use aliro_ccc_core.Base.{ℕ, Bool, List, [], ◌∷◌, if◌then◌else◌}
use aliro_ccc_core.Base.Words.{Bytes}
use aliro_ccc_core.Base.Int.{ℤ}
use aliro_ccc_core.Core.{Result, ok, err, StatusCode}

-- The constants of the driver's header that the controller passes on, by their names there.
pub data DecaConstant : Type 0 where
  dwt_dw_init dwt_enable_int : DecaConstant
  dwt_plen_64 dwt_plen_128 dwt_pac8 dwt_br_6m8 dwt_phrmode_std dwt_phrrate_std : DecaConstant
  dwt_sfd_ieee_4a dwt_sfd_ieee_4z : DecaConstant
  dwt_sts_mode_off dwt_sts_mode_1 dwt_sts_mode_nd dwt_sts_len_64 : DecaConstant
  dwt_pdoa_m0 dwt_pdoa_m1 dwt_pdoa_m3 : DecaConstant
  dwt_int_rxfcg dwt_int_rxfr dwt_int_rxfce dwt_int_rxfto dwt_int_rxpto : DecaConstant
  dwt_int_rxphe dwt_int_rxsto dwt_int_rxfsl dwt_int_arfe dwt_int_txfrs dwt_int_hpdwarn :
      DecaConstant
  dwt_start_tx_delayed dwt_start_rx_delayed dwt_idle_on_dly_err dwt_start_rx_immediate :
      DecaConstant

pub data Register : Type 0 where
  sys_cfg dx_time rx_fwto sts_key0 : Register

pub record DecaConfig : Type 0 where
  pub chan : ℕ
  pub tx_preamb_length : DecaConstant
  pub rx_pac : DecaConstant
  pub tx_code : ℕ
  pub rx_code : ℕ
  pub sfd_type : DecaConstant
  pub data_rate : DecaConstant
  pub phr_mode : DecaConstant
  pub phr_rate : DecaConstant
  pub sfd_to : ℕ
  pub sts_mode : DecaConstant
  pub sts_length : DecaConstant
  pub pdoa_mode : DecaConstant

pub record TxConfig : Type 0 where
  pub pg_dly : ℕ
  pub power : ℕ
  pub pg_count : ℕ

-- One call of the driver (`dwt_` is left out), of a pin or of the clock.
pub data Call : Type 0 where
  reset_pin_output reset_pin_input reset_pin_low : Call
  sleep_ms : ℕ → Call
  probe set_callbacks force_trx_off configure_cia_diag : Call
  initialise : DecaConstant → Call
  set_interrupt : List DecaConstant → DecaConstant → Call
  configure : DecaConfig → Call
  read_from_device : Register → ℕ → Call
  write_to_device : Register → Bytes → Call
  configure_tx_rf : TxConfig → Call
  set_rx_antenna_delay set_tx_antenna_delay : ℕ → Call
  configure_sts_key configure_sts_iv : Bytes → Call
  configure_sts_load_iv : Call
  configure_sts_mode : DecaConstant → Call
  write_sys_status_lo : DecaConstant → Call
  write_tx_data : Bytes → ℕ → Call
  write_tx_fctrl : ℕ → ℕ → ℕ → Call
  start_tx : DecaConstant → Call
  rx_enable : List DecaConstant → Call
  read_sts_quality read_sys_status_lo get_frame_length read_pdoa : Call
  read_rx_timestamp read_tx_timestamp read_sys_timestamp : Call
  read_rx_data : ℕ → ℕ → Call
  nlos_alldiag nlos_accum_count first_path_power rssi : Call

-- The calls so far, the newest first.
abbrev pub Trace : Type 0
Trace = List Call

-- What a call answers after the calls before it: whether it succeeds (DWT_SUCCESS, or not below 0),
-- a number, a signed number, or bytes; and what the build and the driver's header fix.
pub record Platform : Type 0 where
  pub succeeds : Call → Trace → Bool
  pub number : Call → Trace → ℕ
  pub signed : Call → Trace → ℤ
  pub bytes : Call → Trace → Bytes
  pub monotonic_time_us : Trace → ℕ
  pub cperr_mask : ℕ
  pub rxwtoe_mask : ℕ
  pub nlos_enabled : Bool

-- The members, and the statics of the file.
pub record Controller : Type 0 where
  pub trace : Trace
  pub has_listener : Bool
  pub initialized : Bool
  pub pdoa_enabled : Bool
  pub last_sts_key : Bytes
  pub sts_key_valid : Bool

abbrev pub issue : Call → Controller → Controller
issue k c = record c { trace = k ∷ c.trace }

abbrev pub issue_all : List Call → Controller → Controller
issue_all [] c = c
issue_all (k ∷ ks) c = issue_all ks (issue k c)

-- A call whose failure ends the operation with a code.
abbrev pub attempt : Platform → Call → StatusCode → Controller → Result (Unit {0}) × Controller
attempt platform k code c = (if platform.succeeds k c.trace then ok tt else err code, issue k c)

-- `setListener`.
abbrev pub set_listener : Bool → Controller → Controller
set_listener present c = record c { has_listener = present }

abbrev pub force_receiver_off : Controller → Controller
force_receiver_off c = issue force_trx_off c
