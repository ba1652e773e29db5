-- ===== src/Setup/Codec/Negotiation.antt =====
-- What M2 can select: only what this device supports.
use aliro_ccc_core.Base.{ℕ, ◌*◌, ◌≤◌, ◌<◌, ◌≡◌, ◌⊎◌, true}
use aliro_ccc_core.Base.Words.{Bytes}
use aliro_ccc_core.Setup.{
  session_id, channel_bitmask, slot_bitmask, sync_code_index, hopping_config_bitmask, sts_index0,
  hop_mode_key, mac_mode, RangingSessionParameters, DeviceCapabilities,
}
use aliro_ccc_core.Setup.Codec.{Outcome, has_bit, includes}
use aliro_ccc_core.Setup.Codec.Offers.{channel_bit, hopping_combo, chaps_of}

-- The parameters that M2 does not bear on.
abbrev pub not_negotiated : RangingSessionParameters → Bytes × ℕ × Bytes × ℕ × ℕ × ℕ × ℕ
not_negotiated p = (
  p.protocol_version, p.sync_code_index, p.hop_mode_key, p.sts_index0, p.initiation_time_us,
  p.mac_mode, p.responder_count,
)

-- The session, the channel, the block duration, the slot duration and the hopping mode of the second
-- parameters are those of the first, or the expected session and what this device offers; and what M2
-- does not bear on is the same. The UWB configuration, the pulse shape, the slots of a round and the
-- mask of the hopping mode are not spoken of.
pub record IsNegotiated (expected : ℕ) (caps : DeviceCapabilities)
    (start p : RangingSessionParameters) : Type 0 where
  pub session : (p.session_id ≡ start.session_id) ⊎ (p.session_id ≡ expected)
  pub channel :
      (p.channel ≡ start.channel) ⊎ (includes caps.channel_bitmask (channel_bit p.channel) ≡ true)
  pub duration :
      (p.duration_ms ≡ start.duration_ms) ⊎ (96 * caps.min_ran_multiplier ≤ p.duration_ms)
  pub slot :
      (p.slot_duration_rstu ≡ start.slot_duration_rstu)
      ⊎ ((idx : ℕ) × (idx < 7)
          × (has_bit caps.slot_bitmask idx ≡ true)
          × (p.slot_duration_rstu ≡ 400 * chaps_of idx))
  pub hopping :
      (p.hopping_mode ≡ start.hopping_mode)
      ⊎ (includes caps.hopping_config_bitmask (hopping_combo p.hopping_mode) ≡ true)
  pub others : not_negotiated p ≡ not_negotiated start

module _ (expected : ℕ) (caps : DeviceCapabilities) (start : RangingSessionParameters) where
  abbrev Keeps : Outcome RangingSessionParameters → Type 0
  Keeps r = IsNegotiated expected caps start r.1
