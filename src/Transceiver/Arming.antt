-- ===== src/Transceiver/Arming.antt =====
-- src/transceiver/DW3000Controller.cpp: `startDelayedTx`, `startDelayedRx` and `startImmediateRx`.
pub mod Times
use aliro_ccc_core.Base.{
  ℕ, ◌+◌, Bool, true, false, List, [], ◌∷◌, ◌++◌, length, replicate, bit_and, ltb, if◌then◌else◌,
}
use aliro_ccc_core.Base.Words.{Bytes, u16, le16, le32}
use aliro_ccc_core.Core.{Result, late_transmission, transceiver_error}
use aliro_ccc_core.Transceiver.Platform.{
  dwt_int_hpdwarn, dwt_start_tx_delayed, dwt_start_rx_delayed, dwt_idle_on_dly_err,
  dwt_start_rx_immediate, dx_time, rx_fwto, Call, write_to_device, write_sys_status_lo,
  write_tx_data, write_tx_fctrl, start_tx, rx_enable, Platform, Controller, issue, issue_all,
  attempt,
}

-- The registers DX_TIME, DREF_TIME and RX_FWTO, adjacent and written at once.
abbrev pub delay_regs : ℕ → ℕ → Bytes
delay_regs time timeout =
    le32 (bit_and time 0xfffffffe) ++ 0 ∷ 0 ∷ 0 ∷ 0 ∷ (le16 timeout ++ 0 ∷ 0 ∷ [])

-- The register of the frame-wait timeout; 0 stands for the widest window.
abbrev pub wait_regs : ℕ → Bytes
wait_regs timeout = le32 (if ltb 0 timeout then timeout else 0xffff)

-- The frame to send: its bytes, or four dummy ones for a ranging frame.
abbrev pub frame_calls : Bytes → Bool → List Call
frame_calls (b ∷ bs) ranging_frame =
    write_tx_data (b ∷ bs) 0 ∷ write_tx_fctrl (u16 (length (b ∷ bs) + 2)) 0 1 ∷ []
frame_calls [] true = write_tx_data (replicate 4 0) 0 ∷ write_tx_fctrl 6 0 1 ∷ []
frame_calls [] false = write_tx_fctrl 0 0 0 ∷ []

module _ (platform : Platform) where
  unfoldable pub start_delayed_tx : ℕ → Bytes → Bool → Controller → Result (Unit {0}) × Controller
  start_delayed_tx time frame ranging_frame c =
      attempt platform (start_tx dwt_start_tx_delayed) late_transmission (
        issue_all (frame_calls frame ranging_frame) (
          issue (write_to_device dx_time (delay_regs time 0))
            (issue (write_sys_status_lo dwt_int_hpdwarn) c)))

  unfoldable pub start_delayed_rx : ℕ → ℕ → Controller → Result (Unit {0}) × Controller
  start_delayed_rx time timeout c =
      attempt platform (rx_enable (dwt_start_rx_delayed ∷ dwt_idle_on_dly_err ∷ []))
        late_transmission
        (issue (write_to_device dx_time (delay_regs time timeout))
          (issue (write_sys_status_lo dwt_int_hpdwarn) c))

  unfoldable pub start_immediate_rx : ℕ → Controller → Result (Unit {0}) × Controller
  start_immediate_rx timeout c =
      attempt platform (rx_enable (dwt_start_rx_immediate ∷ [])) transceiver_error
        (issue (write_to_device rx_fwto (wait_regs timeout)) c)
