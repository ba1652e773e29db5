-- ===== src/Checks/Transceiver.antt =====
-- Runs of the transceiver's controller over a driver that succeeds always and has one frame.
use aliro_ccc_core.Base.{ℕ, ◌<◌, ◌≡◌, refl, arith, true, false, [], ◌∷◌, ◌++◌, length, replicate}
use aliro_ccc_core.Base.Words.{Bytes, read_le32}
use aliro_ccc_core.Base.Int.{pos}
use aliro_ccc_core.Core.{err, buffer_overflow, channel9, ieee4z}
use aliro_ccc_core.Transceiver.Platform.{
  Call, get_frame_length, read_rx_data, nlos_accum_count, rx_enable, write_to_device,
  write_sys_status_lo, dx_time, rx_fwto, dwt_start_rx_delayed, dwt_idle_on_dly_err,
  dwt_start_rx_immediate, dwt_int_hpdwarn, Platform, Controller,
}
use aliro_ccc_core.Transceiver.Arming.{start_delayed_rx, start_immediate_rx}
use aliro_ccc_core.Transceiver.Arming.Times.{IsWindow, start_rx_windows}
use aliro_ccc_core.Transceiver.Reading.{read_received_data}
use aliro_ccc_core.Transceiver.Reading.Bounds.{Bounded, read_received_data_lem}
use aliro_ccc_core.Transceiver.Phy.{TransceiverConfig, off, initialize, configure_phy}

abbrev pub frame_number : Bytes → Call → ℕ
frame_number frame get_frame_length = length frame
frame_number frame nlos_accum_count = 1
frame_number frame _ = 0

abbrev pub frame_bytes : Bytes → Call → Bytes
frame_bytes frame (read_rx_data n offset) = frame
frame_bytes frame _ = replicate 5 1

abbrev pub some_platform : Bytes → Platform
some_platform frame = record {
  succeeds = λ k trace. true;
  number = λ k trace. frame_number frame k;
  signed = λ k trace. pos 60;
  bytes = λ k trace. frame_bytes frame k;
  monotonic_time_us = λ trace. 5;
  cperr_mask = 0x10000000;
  rxwtoe_mask = 0x200;
  nlos_enabled = true;
}

abbrev pub some_controller : Controller
some_controller = record {
  trace = [];
  has_listener = true;
  initialized = true;
  pdoa_enabled = false;
  last_sts_key = replicate 16 0;
  sts_key_valid = false;
}

abbrev another_key : Bytes
another_key = replicate 15 1 ++ 2 ∷ []

-- The key is in the cache, and the device holds it.
abbrev some_config : TransceiverConfig
some_config = record {
  channel = channel9;
  preamble_length_symbols = 64;
  sync_code = 9;
  sfd = ieee4z;
  sfd_timeout_symbols = 0;
  rx_pac_size = 8;
  antenna_delay = 0;
  pdoa = off;
}

-- The controller after `initialize` and a configuration.
abbrev set_up : Controller
set_up =
    let ready = (initialize (some_platform []) some_controller).1 in
    (configure_phy (some_platform []) some_config ready).1

start_rx_windows_example :
    ((regs : Bytes) × ((start_delayed_rx (some_platform []) 1001 1350 some_controller).1.trace
        ≡ rx_enable (dwt_start_rx_delayed ∷ dwt_idle_on_dly_err ∷ [])
          ∷ write_to_device dx_time regs
          ∷ write_sys_status_lo dwt_int_hpdwarn
          ∷ [])
      × IsWindow 1001 1350 regs)
    × ((regs : Bytes) × ((start_immediate_rx (some_platform []) 1350 some_controller).1.trace
          ≡ rx_enable (dwt_start_rx_immediate ∷ []) ∷ write_to_device rx_fwto regs ∷ [])
        × (read_le32 regs 0 ≡ 1350)
        × (0 < read_le32 regs 0))
start_rx_windows_example =
    start_rx_windows (some_platform []) 1001 1350 some_controller (omega arith) (omega arith)

read_received_data_lem_example :
    Bounded
      (some_platform (1 ∷ 2 ∷ 3 ∷ []))
      (replicate 4 0)
      0
      some_controller
      (read_received_data (some_platform (1 ∷ 2 ∷ 3 ∷ [])) (replicate 4 0) 0 some_controller)
read_received_data_lem_example =
    read_received_data_lem (some_platform (1 ∷ 2 ∷ 3 ∷ [])) (replicate 4 0) 0 some_controller

read_short :
    (read_received_data (some_platform (1 ∷ 2 ∷ 3 ∷ [])) (replicate 2 0) 0 some_controller).0
    ≡ err buffer_overflow
unfolding read_received_data
read_short = refl
