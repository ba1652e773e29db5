-- ===== src/Transceiver/Phy.antt =====
-- src/transceiver/DW3000Controller.cpp: `initialize` and `configurePhy`.
use aliro_ccc_core.Base.{
  ℕ, Bool, true, false, not, ◌&&◌, List, [], ◌∷◌, leb, ltb, ◌==◌, if◌then◌else◌, bit_or, write,
}
use aliro_ccc_core.Base.Words.{Bytes, byte_at, u8, ◌>>>◌}
use aliro_ccc_core.Core.{
  Result, ok, err, transceiver_error, invalid_state, UwbChannel, channel5, channel9, SfdType,
  ieee4a, ieee4z,
}
use aliro_ccc_core.Transceiver.Platform.{
  DecaConstant, dwt_dw_init, dwt_enable_int, dwt_plen_64, dwt_plen_128, dwt_pac8, dwt_br_6m8,
  dwt_phrmode_std, dwt_phrrate_std, dwt_sfd_ieee_4a, dwt_sfd_ieee_4z, dwt_sts_mode_off,
  dwt_sts_len_64, dwt_pdoa_m0, dwt_pdoa_m1, dwt_pdoa_m3, dwt_int_rxfcg, dwt_int_rxfr, dwt_int_rxfce,
  dwt_int_rxfto, dwt_int_rxpto, dwt_int_rxphe, dwt_int_rxsto, dwt_int_rxfsl, dwt_int_arfe,
  dwt_int_txfrs, sys_cfg, DecaConfig, Call, reset_pin_output, reset_pin_input, reset_pin_low,
  sleep_ms, probe, set_callbacks, configure_cia_diag, initialise, set_interrupt, configure,
  read_from_device, write_to_device, configure_tx_rf, set_rx_antenna_delay, set_tx_antenna_delay,
  Platform, Controller, issue, issue_all, force_receiver_off,
}

pub data PdoaMode : Type 0 where
  off mode1 mode3 : PdoaMode

pub record TransceiverConfig : Type 0 where
  pub channel : UwbChannel
  pub preamble_length_symbols : ℕ
  pub sync_code : ℕ
  pub sfd : SfdType
  pub sfd_timeout_symbols : ℕ
  pub rx_pac_size : ℕ
  pub antenna_delay : ℕ
  pub pdoa : PdoaMode

unfoldable pub perform_hardware_reset : Controller → Controller
perform_hardware_reset =
    issue_all (reset_pin_output ∷ reset_pin_low ∷ sleep_ms 2 ∷ reset_pin_input ∷ sleep_ms 5 ∷ [])

abbrev pub interrupts : List DecaConstant
interrupts =
    dwt_int_rxfcg ∷ dwt_int_rxfr ∷ dwt_int_rxfce ∷ dwt_int_rxfto ∷ dwt_int_rxpto ∷ dwt_int_rxphe
    ∷ dwt_int_rxsto ∷ dwt_int_rxfsl ∷ dwt_int_arfe ∷ dwt_int_txfrs ∷ []

abbrev pub deca_channel : UwbChannel → ℕ
deca_channel channel5 = 5
deca_channel channel9 = 9

abbrev pub deca_sfd : SfdType → DecaConstant
deca_sfd ieee4a = dwt_sfd_ieee_4a
deca_sfd ieee4z = dwt_sfd_ieee_4z

abbrev pub deca_pdoa : PdoaMode → DecaConstant
deca_pdoa off = dwt_pdoa_m0
deca_pdoa mode1 = dwt_pdoa_m1
deca_pdoa mode3 = dwt_pdoa_m3

abbrev pub is_pdoa : PdoaMode → Bool
is_pdoa off = false
is_pdoa _ = true

-- A code from 9 to 12 is kept, any other becomes 9.
abbrev pub checked_sync_code : ℕ → ℕ
checked_sync_code code = if leb 9 code && leb code 12 then code else 9

abbrev pub deca_config : TransceiverConfig → DecaConfig
deca_config config = record {
  chan = deca_channel config.channel;
  tx_preamb_length = if config.preamble_length_symbols == 64 then dwt_plen_64 else dwt_plen_128;
  rx_pac = dwt_pac8;
  tx_code = checked_sync_code config.sync_code;
  rx_code = checked_sync_code config.sync_code;
  sfd_type = deca_sfd config.sfd;
  data_rate = dwt_br_6m8;
  phr_mode = dwt_phrmode_std;
  phr_rate = dwt_phrrate_std;
  sfd_to = if ltb 0 config.sfd_timeout_symbols then config.sfd_timeout_symbols else 65;
  sts_mode = dwt_sts_mode_off;
  sts_length = dwt_sts_len_64;
  pdoa_mode = deca_pdoa config.pdoa;
}

-- Byte 1 of the system configuration, with the bit of the frame-wait timeout.
abbrev pub with_rxwtoe : ℕ → Bytes → Bytes
with_rxwtoe mask bytes = write 1 (bit_or (byte_at bytes 1) (u8 (mask >>> 8)) ∷ []) bytes

abbrev pub antenna_delay_calls : ℕ → List Call
antenna_delay_calls delay =
    if delay == 0 then [] else set_rx_antenna_delay delay ∷ set_tx_antenna_delay delay ∷ []

module _ (platform : Platform) where
  unfoldable pub initialize : Controller → Result (Unit {0}) × Controller
  unfolding perform_hardware_reset
  initialize c =
      let reset = perform_hardware_reset c in
      if not (platform.succeeds probe reset.trace)
      then (err transceiver_error, issue probe reset)
      else if not (platform.succeeds (initialise dwt_dw_init) (issue probe reset).trace)
      then (err transceiver_error, issue (initialise dwt_dw_init) (issue probe reset))
      else (
        ok tt,
        record (issue_all
            (initialise dwt_dw_init ∷ set_callbacks ∷ set_interrupt interrupts dwt_enable_int ∷ [])
            (issue probe reset)) { initialized = true },
      )

  abbrev pub nlos_calls : List Call
  nlos_calls = if platform.nlos_enabled then configure_cia_diag ∷ [] else []

  -- The read, the change and the write of the system configuration.
  abbrev pub enable_frame_wait_timeout : Controller → Controller
  enable_frame_wait_timeout c =
      issue
        (write_to_device sys_cfg
          (with_rxwtoe platform.rxwtoe_mask (platform.bytes (read_from_device sys_cfg 4) c.trace)))
        (issue (read_from_device sys_cfg 4) c)

  -- What follows a `dwt_configure` that succeeded.
  abbrev pub configured : TransceiverConfig → Controller → Controller
  configured config c =
      issue_all
        (configure_tx_rf (record { pg_dly = 0x34; power = 0xa0a0a0a0; pg_count = 0 })
          ∷ antenna_delay_calls config.antenna_delay)
        (enable_frame_wait_timeout (issue_all nlos_calls (record c { sts_key_valid = false })))

  unfoldable pub configure_phy : TransceiverConfig → Controller → Result (Unit {0}) × Controller
  configure_phy config c =
      let off_now = force_receiver_off (record c { pdoa_enabled = is_pdoa config.pdoa }) in
      let done = issue (configure (deca_config config)) off_now in
      if not c.initialized
      then (err invalid_state, c)
      else if platform.succeeds (configure (deca_config config)) off_now.trace
      then (ok tt, configured config done)
      else (err transceiver_error, done)
