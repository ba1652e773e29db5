-- ===== src/Transceiver/Events.antt =====
-- src/transceiver/DW3000Controller.cpp, `handleDriverRxSuccess`: the event that a reception becomes.
use aliro_ccc_core.Base.{ℕ, Bool, ◌&&◌, bit_and, Option, none, some, ◌==◌, if◌then◌else◌}
use aliro_ccc_core.Base.Int.{ℤ, pos}
use aliro_ccc_core.Transceiver.Platform.{
  read_sts_quality, read_sys_status_lo, get_frame_length, read_pdoa, Call, Platform, Controller,
  issue,
}
use aliro_ccc_core.Transceiver.Reading.{read_rx_timestamp_dtu}

pub record RxSuccessEvent : Type 0 where
  pub raw_status_register : ℕ
  pub frame_length : ℕ
  pub rx_timestamp_dtu : ℕ
  pub sts_quality_index : ℤ
  pub sts_passed : Bool
  pub pdoa_raw : ℤ
  pub pdoa_valid : Bool

module _ (platform : Platform) where
  -- A value that the callback passed, or the register where it passed 0.
  abbrev pub given_or : ℕ → ℕ → ℕ
  given_or given fallback = if given == 0 then fallback else given

  abbrev pub asked_if : Bool → Call → Controller → Controller
  asked_if test k c = if test then issue k c else c

  -- The calls before the timestamp is read: the STS quality, then the status, the length and the
  -- phase difference where they are needed.
  abbrev pub after_quality : Controller → Controller
  after_quality c = issue read_sts_quality c

  abbrev pub after_status : ℕ → Controller → Controller
  after_status status c = asked_if (status == 0) read_sys_status_lo (after_quality c)

  abbrev pub after_length : ℕ → ℕ → Controller → Controller
  after_length status len c = asked_if (len == 0) get_frame_length (after_status status c)

  abbrev pub after_pdoa : ℕ → ℕ → Controller → Controller
  after_pdoa status len c = asked_if c.pdoa_enabled read_pdoa (after_length status len c)

  abbrev pub rx_event : ℕ → ℕ → Controller → RxSuccessEvent
  rx_event status len c =
      let quality_ok = platform.succeeds read_sts_quality c.trace in
      let st = given_or status (platform.number read_sys_status_lo (after_quality c).trace) in
      record {
        raw_status_register = st;
        frame_length =
            given_or len (platform.number get_frame_length (after_status status c).trace);
        rx_timestamp_dtu = (read_rx_timestamp_dtu platform (after_pdoa status len c)).0;
        sts_quality_index = platform.signed read_sts_quality c.trace;
        sts_passed = quality_ok && (bit_and st platform.cperr_mask == 0);
        pdoa_raw =
            if c.pdoa_enabled
            then platform.signed read_pdoa (after_length status len c).trace
            else pos 0;
        pdoa_valid = c.pdoa_enabled && quality_ok;
      }

  -- No event, and no call, without a listener.
  unfoldable pub handle_driver_rx_success : ℕ → ℕ → Controller → Option RxSuccessEvent × Controller
  handle_driver_rx_success status len c =
      if c.has_listener
      then (
        some (rx_event status len c),
        (read_rx_timestamp_dtu platform (after_pdoa status len c)).1,
      )
      else (none, c)
