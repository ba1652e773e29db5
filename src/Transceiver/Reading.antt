-- ===== src/Transceiver/Reading.antt =====
-- src/transceiver/DW3000Controller.cpp: timestamps, received bytes and the diagnostics of the first
-- path.
pub mod Bounds
use aliro_ccc_core.Base.{
  ℕ, ◌+◌, Bool, true, false, ◌&&◌, ◌||◌, not, length, take, write, bit_or, ltb, ◌==◌, if◌then◌else◌,
}
use aliro_ccc_core.Base.Words.{Bytes, u16, ◌<<<◌, byte_at}
use aliro_ccc_core.Base.Int.{ℤ}
use aliro_ccc_core.Core.{Result, ok, err, buffer_overflow}
use aliro_ccc_core.Ranging.Nlos.{int16_min, is_eq_ℤ}
use aliro_ccc_core.Transceiver.Platform.{
  Call, get_frame_length, read_rx_timestamp, read_tx_timestamp, read_sys_timestamp, read_rx_data,
  read_sys_status_lo, nlos_alldiag, nlos_accum_count, first_path_power, rssi, Platform, Controller,
  issue,
}

pub record FirstPathDiagnostics : Type 0 where
  pub first_path_power_db_q8 : ℤ
  pub rssi_db_q8 : ℤ
  pub valid : Bool

abbrev pub no_diagnostics : FirstPathDiagnostics
no_diagnostics = record {
  first_path_power_db_q8 = int16_min;
  rssi_db_q8 = int16_min;
  valid = false;
}

-- Five bytes, the lowest first.
unfoldable pub of_le40 : Bytes → ℕ
of_le40 ts =
    bit_or
      (bit_or (bit_or (bit_or (byte_at ts 0) (byte_at ts 1 <<< 8)) (byte_at ts 2 <<< 16))
        (byte_at ts 3 <<< 24))
      (byte_at ts 4 <<< 32)

module _ (platform : Platform) where
  unfoldable pub read_rx_timestamp_dtu : Controller → ℕ × Controller
  unfolding of_le40
  read_rx_timestamp_dtu c =
      (of_le40 (platform.bytes read_rx_timestamp c.trace), issue read_rx_timestamp c)

  unfoldable pub read_tx_timestamp_dtu : Controller → ℕ × Controller
  unfolding of_le40
  read_tx_timestamp_dtu c =
      (of_le40 (platform.bytes read_tx_timestamp c.trace), issue read_tx_timestamp c)

  unfoldable pub read_system_timestamp_dtu : Controller → ℕ × Controller
  read_system_timestamp_dtu c =
      (platform.number read_sys_timestamp c.trace, issue read_sys_timestamp c)

  unfoldable pub read_status_lo : Controller → ℕ × Controller
  read_status_lo c = (platform.number read_sys_status_lo c.trace, issue read_sys_status_lo c)

  -- The powers, the second computed only if the first could be.
  abbrev pub powers : Controller → FirstPathDiagnostics × Controller
  powers c =
      let c' = issue first_path_power c in
      let power = platform.signed first_path_power c.trace in
      let level = platform.signed rssi c'.trace in
      if not (platform.succeeds first_path_power c.trace)
      then (no_diagnostics, c')
      else if not (platform.succeeds rssi c'.trace)
          || is_eq_ℤ level int16_min
          || is_eq_ℤ power int16_min
      then (no_diagnostics, issue rssi c')
      else (
        record { first_path_power_db_q8 = power; rssi_db_q8 = level; valid = true },
        issue rssi c',
      )

  unfoldable pub read_final_first_path_diagnostics : Controller → FirstPathDiagnostics × Controller
  read_final_first_path_diagnostics c =
      if not platform.nlos_enabled
      then (no_diagnostics, c)
      else if not (platform.succeeds nlos_alldiag c.trace)
          || platform.number nlos_accum_count c.trace == 0
      then (no_diagnostics, issue nlos_alldiag c)
      else powers (issue nlos_alldiag c)

  -- The length that is read: the frame's, or the buffer's where the driver reports 0.
  abbrev pub received_length : Bytes → Controller → ℕ
  received_length out c =
      if platform.number get_frame_length c.trace == 0
      then u16 (length out)
      else platform.number get_frame_length c.trace

  -- The result, the buffer behind it, and the controller.
  unfoldable pub read_received_data : Bytes → ℕ → Controller → Result ℕ × Bytes × Controller
  read_received_data out offset c =
      let n = received_length out c in
      let asked = issue get_frame_length c in
      if ltb (length out) n then (err buffer_overflow, out, asked) else (
        ok n,
        write 0 (take n (platform.bytes (read_rx_data n offset) asked.trace)) out,
        issue (read_rx_data n offset) asked,
      )
