-- ===== src/Transceiver/Uses.antt =====
-- src/transceiver/DW3000Controller.cpp: the uses of a controller, and its STS key.
use aliro_ccc_core.Base.{ℕ, ◌≡◌, Bool, length}
use aliro_ccc_core.Base.Words.{Bytes}
use aliro_ccc_core.Core.{ok}
use aliro_ccc_core.Transceiver.Platform.{Platform, Controller, force_receiver_off, set_listener}
use aliro_ccc_core.Transceiver.Phy.{TransceiverConfig, initialize, configure_phy}
use aliro_ccc_core.Transceiver.StsKeys.{
  StsMode, load_sts_key, load_sts_iv, load_sts_key_iv, set_sts_mode,
}
use aliro_ccc_core.Transceiver.StsKeys.Cache.{device_key}
use aliro_ccc_core.Transceiver.Arming.{start_delayed_tx, start_delayed_rx, start_immediate_rx}
use aliro_ccc_core.Transceiver.Reading.{
  read_rx_timestamp_dtu, read_tx_timestamp_dtu, read_final_first_path_diagnostics,
  read_received_data,
}
use aliro_ccc_core.Transceiver.Events.{handle_driver_rx_success}

-- One operation. A configuration counts if it succeeds, and `initialize`, whatever it returns, only
-- together with such a configuration directly behind it.
pub data Use (platform : Platform) (c : Controller) : Controller → Type 0 where
  configures :
      (config : TransceiverConfig) {t : Controller}
      → configure_phy platform config c ≡ (ok tt, t)
      → Use platform c t
  sets_up :
      (config : TransceiverConfig) {t : Controller}
      → configure_phy platform config (initialize platform c).1 ≡ (ok tt, t)
      → Use platform c t
  loads_key : (key : Bytes) → Use platform c (load_sts_key key c).1
  loads_iv : (iv : Bytes) → Use platform c (load_sts_iv iv c).1
  loads_both : (key iv : Bytes) → length key ≡ 16 → Use platform c (load_sts_key_iv key iv c).1
  sets_mode : (mode : StsMode) → Use platform c (set_sts_mode mode c)
  starts_tx :
      (time : ℕ) (frame : Bytes) (ranging_frame : Bool)
      → Use platform c (start_delayed_tx platform time frame ranging_frame c).1
  starts_rx : (time timeout : ℕ) → Use platform c (start_delayed_rx platform time timeout c).1
  listens : (timeout : ℕ) → Use platform c (start_immediate_rx platform timeout c).1
  turns_off : Use platform c (force_receiver_off c)
  reads_rx_time : Use platform c (read_rx_timestamp_dtu platform c).1
  reads_tx_time : Use platform c (read_tx_timestamp_dtu platform c).1
  reads_frame :
      (out : Bytes) (offset : ℕ) → Use platform c (read_received_data platform out offset c).2
  reads_diagnostics : Use platform c (read_final_first_path_diagnostics platform c).1
  receives : (status len : ℕ) → Use platform c (handle_driver_rx_success platform status len c).1
  sets_listener : (present : Bool) → Use platform c (set_listener present c)

pub data Uses (platform : Platform) (c : Controller) : Controller → Type 0 where
  none_yet : Uses platform c c
  then_use : {t u : Controller} → Uses platform c t → Use platform t u → Uses platform c u

module _ (platform : Platform) where
  -- The key and the cache are as they were.
  abbrev KeepsKey : Controller → Controller → Type 0
  KeepsKey c t =
      (t.sts_key_valid ≡ c.sts_key_valid)
      × (t.last_sts_key ≡ c.last_sts_key)
      × (device_key t.trace ≡ device_key c.trace)
