-- ===== src/Transceiver/Arming/Times.antt =====
-- The times that the arming of a window writes into the device.
use aliro_ccc_core.Base.{
  ℕ, ◌-◌, ◌%◌, ◌^◌, ◌<◌, ◌≡◌, refl, ◌∙◌, arith, [], ◌∷◌, length, bit_and, bit_and-even, ltb,
  if◌then◌else◌,
}
use aliro_ccc_core.Base.Words.{Bytes, u8, ◌>>>◌, read_le32, of_le32, of_le32_sum, of_le32_bytes}
use aliro_ccc_core.Transceiver.Platform.{
  dwt_int_hpdwarn, dwt_start_rx_delayed, dwt_idle_on_dly_err, dwt_start_rx_immediate, dx_time,
  rx_fwto, write_to_device, write_sys_status_lo, rx_enable, Platform, Controller,
}
use aliro_ccc_core.Transceiver.Arming.{delay_regs, wait_regs, start_delayed_rx, start_immediate_rx}

timeout_bytes : (t : ℕ) → t < 2 ^ 16 → of_le32 (u8 t) (u8 (t >>> 8)) 0 0 ≡ t
timeout_bytes t h =
    omega (arith, of_le32_sum (u8 t) (u8 (t >>> 8)) 0 0 (omega arith) (omega arith) (omega arith))

even_bytes : (v timeout : ℕ) → v < 2 ^ 32 → read_le32 (delay_regs v timeout) 0 ≡ v - v % 2
even_bytes v timeout h =
    let e = bit_and-even v h in of_le32_bytes (bit_and v 0xfffffffe) (omega (arith, e)) ∙ e

waits : (t : ℕ) → t < 2 ^ 16 → read_le32 (wait_regs t) 0 ≡ (if ltb 0 t then t else 0xffff)
waits t h = of_le32_bytes (if ltb 0 t then t else 0xffff) (ground arith)

-- The twelve bytes at DX_TIME: an even time, no reference, and the timeout of the window.
pub record IsWindow (time timeout : ℕ) (regs : Bytes) : Type 0 where
  pub size : length regs ≡ 12
  pub dx_time_value : read_le32 regs 0 ≡ time - time % 2
  pub dref_time_value : read_le32 regs 4 ≡ 0
  pub rx_fwto_value : read_le32 regs 8 ≡ timeout

-- A delayed window is armed by one write of the registers from DX_TIME on, with the time less its
-- lowest bit and the timeout, before the receiver is enabled; the HPDWARN flag is cleared first. An
-- immediate window is armed by the write of its timeout, or of 65535 for 0, so that it is never 0.
pub start_rx_windows :
    (platform : Platform) (time timeout : ℕ) (c : Controller)
    → time < 2 ^ 32
    → timeout < 2 ^ 16
    → ((regs : Bytes) × ((start_delayed_rx platform time timeout c).1.trace
          ≡ rx_enable (dwt_start_rx_delayed ∷ dwt_idle_on_dly_err ∷ [])
            ∷ write_to_device dx_time regs
            ∷ write_sys_status_lo dwt_int_hpdwarn
            ∷ c.trace)
        × IsWindow time timeout regs)
      × ((regs : Bytes) × ((start_immediate_rx platform timeout c).1.trace
            ≡ rx_enable (dwt_start_rx_immediate ∷ []) ∷ write_to_device rx_fwto regs ∷ c.trace)
          × (read_le32 regs 0 ≡ (if ltb 0 timeout then timeout else 65535))
          × (0 < read_le32 regs 0))
unfolding start_delayed_rx start_immediate_rx of_le32
start_rx_windows platform time timeout c ht hw = (
  (
    delay_regs time timeout,
    refl,
    record {
      size = refl;
      dx_time_value = even_bytes time timeout ht;
      dref_time_value = refl;
      rx_fwto_value = timeout_bytes timeout hw;
    },
  ),
  (wait_regs timeout, refl, waits timeout hw, ground (arith, waits timeout hw)),
)
