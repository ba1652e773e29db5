-- ===== src/Session/State.antt =====
-- include/uwb/session/RangingSession.hpp: the states, the configuration, the results and the members
-- of a session. `F` is the type of floating-point numbers.
use aliro_ccc_core.Base.{ℕ, Bool, List}
use aliro_ccc_core.Base.Words.{Bytes}
use aliro_ccc_core.Base.Int.{ℤ}
use aliro_ccc_core.Core.{StatusCode, MacAddresses}
use aliro_ccc_core.Crypto.Provider.{CryptoProvider}
use aliro_ccc_core.Ranging.Aoa.{Floats}
use aliro_ccc_core.Ranging.Consensus.{
  RangeConsensusConfig, RangeConsensusFilter, RangeIntegrityReport,
}
use aliro_ccc_core.Ranging.Stability.{AoaStabilityConfig, AoaStabilityDetector}
use aliro_ccc_core.Setup.{RangingSessionParameters}
use aliro_ccc_core.Transceiver.Platform.{Platform, Controller}
use aliro_ccc_core.Session.Cycle.{CycleKeys}
use aliro_ccc_core.Session.PrePoll.{Freshness, SessionKeys}

pub data SessionState : Type 0 where
  uninitialized idle pre_poll_listening awaiting_poll : SessionState
  transmitting_response awaiting_final awaiting_final_data suspended : SessionState

pub record RangingResult : Type 0 where
  pub session_id : ℕ
  pub block_index : ℕ
  pub round_in_block : ℕ
  pub distance : ℤ
  pub integrity : RangeIntegrityReport
  pub timestamp_us : ℕ
  pub aoa_centi_degrees : ℤ
  pub aoa_valid : Bool

pub record SessionNodeConfig (F : Type 0) : Type 0 where
  pub responder_index : ℕ
  pub block_parity_filter : ℤ
  pub antenna_delay_bias : ℤ
  pub enable_aoa : Bool
  pub aoa_antenna_spacing_mm : F

-- The components that a session is constructed with, and the build's configuration.
pub record Environment : Type 1 where
  pub platform : Platform
  pub crypto : CryptoProvider
  pub floats : Floats
  pub consensus : RangeConsensusConfig
  pub stability : AoaStabilityConfig
  pub nlos_margin_db_q8 : ℤ

-- `results` is what the callback was called with, the newest first. No logger is attached.
pub record Session (F : Type 0) : Type 0 where
  pub controller : Controller
  pub filter : RangeConsensusFilter
  pub results : List RangingResult
  pub state : SessionState
  pub node_config : SessionNodeConfig F
  pub params : RangingSessionParameters
  pub has_callback : Bool
  pub ursk : Bytes
  pub mursk : Bytes
  pub mupsk2 : Bytes
  pub mupsk1 : Bytes
  pub salted_hash : Bytes
  pub addresses : MacAddresses
  pub material_valid : Bool
  pub last_derive_error : StatusCode
  pub current_block : ℕ
  pub current_round : ℕ
  pub armed_poll_sts_index : ℕ
  pub poll_rx_timestamp_dtu : ℕ
  pub resp_tx_timestamp_dtu : ℕ
  pub final_rx_timestamp_dtu : ℕ
  pub final_sts_quality : ℤ
  pub final_sts_passed : Bool
  pub final_pdoa_raw : ℤ
  pub final_pdoa_valid : Bool
  pub final_first_path_db_q8 : ℤ
  pub final_rssi_db_q8 : ℤ
  pub final_nlos_diag_valid : Bool
  pub aoa_stability : AoaStabilityDetector
  pub warm_valid : Bool
  pub warm : CycleKeys
  pub armed_keys_valid : Bool
  pub armed : CycleKeys
  pub freshness : Freshness
  pub last_final_data_counter : ℕ
  pub has_received_final_data_counter : Bool
  pub rx_frame_buffer : Bytes
  pub stash_frame : Bytes
  pub stash_len : ℕ

-- The members that `decodePrePollFrame` only reads.
abbrev pub keys_of : {F : Type 0} → Session F → SessionKeys
keys_of s = record { mupsk1 = s.mupsk1; addresses = s.addresses; session_id = s.params.session_id }

-- The sessions of an environment.
abbrev pub SessionOf : Environment → Type 0
SessionOf env = Session env.floats.Float
