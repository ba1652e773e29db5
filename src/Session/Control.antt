-- ===== src/Session/Control.antt =====
-- src/session/RangingSession.cpp: the start, the stop, and the suspension of a session.
pub mod Starting
use aliro_ccc_core.Base.{ℕ, Bool, true, false, not, if◌then◌else◌}
use aliro_ccc_core.Base.Words.{Bytes}
use aliro_ccc_core.Core.{Result, ok, err, invalid_state, ieee4a}
use aliro_ccc_core.Ranging.Consensus.{reset_filter}
use aliro_ccc_core.Ranging.Stability.{reset_detector}
use aliro_ccc_core.Setup.{RangingSessionParameters}
use aliro_ccc_core.Transceiver.Platform.{Controller, force_receiver_off, set_listener}
use aliro_ccc_core.Transceiver.Phy.{PdoaMode, TransceiverConfig, checked_sync_code, configure_phy}
use aliro_ccc_core.Session.PrePoll.{Freshness}
use aliro_ccc_core.Session.State.{
  SessionState, idle, suspended, SessionNodeConfig, Environment, Session, SessionOf,
}
use aliro_ccc_core.Session.Material.{derive_session_material}
use aliro_ccc_core.Session.Listening.{arm_pre_poll_listening}

abbrev pub is_suspended : SessionState → Bool
is_suspended suspended = true
is_suspended _ = false

-- The flags are cleared, and the counter of the last Pre-Poll stays.
abbrev pub forgotten : Freshness → Freshness
forgotten f = record f {
  has_received_pre_poll_counter = false;
  last_pre_poll_sts_index = 0;
  has_pre_poll_sts_index = false;
}

module _ (env : Environment) where
  abbrev pub hardware_config : SessionOf env → TransceiverConfig
  hardware_config s = record {
    channel = s.params.channel;
    preamble_length_symbols = 64;
    sync_code = checked_sync_code s.params.sync_code_index;
    sfd = ieee4a;
    sfd_timeout_symbols = 65;
    rx_pac_size = 8;
    antenna_delay = 16346;
    pdoa = if s.node_config.enable_aoa then PdoaMode.mode3 else PdoaMode.off;
  }

  -- What a start and a resume with an anchor clear.
  abbrev pub cleared : SessionOf env → SessionOf env
  cleared s = record s {
    filter = reset_filter;
    aoa_stability = reset_detector env.stability;
    freshness = forgotten s.freshness;
    has_received_final_data_counter = false;
    warm_valid = false;
    armed_keys_valid = false;
  }

  abbrev pub with_phy :
      SessionOf env → Result (Unit {0}) × Controller → Result (Unit {0}) × SessionOf env
  with_phy s (err e, c) = (err e, record s { controller = c })
  with_phy s (ok done, c) =
      (ok tt, arm_pre_poll_listening env (record s { controller = set_listener true c }))

  -- What a start stores first; the flag of valid material stays as it is.
  abbrev pub given :
      Bytes
      → RangingSessionParameters
      → SessionNodeConfig env.floats.Float
      → Bool
      → SessionOf env
      → SessionOf env
  given ursk params config has_callback s = record s {
    controller = force_receiver_off s.controller;
    params = params;
    node_config = config;
    has_callback = has_callback;
    ursk = ursk;
  }

  abbrev pub started : SessionOf env → Result (Unit {0}) × SessionOf env
  started s =
      if not s.material_valid
      then (err s.last_derive_error, s)
      else with_phy (cleared s) (configure_phy env.platform (hardware_config s) s.controller)

  unfoldable pub start :
      Bytes
      → RangingSessionParameters
      → SessionNodeConfig env.floats.Float
      → Bool
      → SessionOf env
      → Result (Unit {0}) × SessionOf env
  unfolding arm_pre_poll_listening derive_session_material
  start ursk params config has_callback s =
      started (derive_session_material env (given ursk params config has_callback s))

  unfoldable pub stop : SessionOf env → SessionOf env
  stop s = record s {
    controller = force_receiver_off (set_listener false s.controller);
    state = idle;
  }

  unfoldable pub suspend : SessionOf env → SessionOf env
  suspend s = record s { controller = force_receiver_off s.controller; state = suspended }

  unfoldable pub resume : SessionOf env → Result (Unit {0}) × SessionOf env
  unfolding arm_pre_poll_listening
  resume s =
      if is_suspended s.state then (ok tt, arm_pre_poll_listening env s) else (err invalid_state, s)

  abbrev pub anchored : SessionOf env → Result (Unit {0}) × SessionOf env
  anchored s =
      if not s.material_valid
      then (err s.last_derive_error, s)
      else (ok tt, arm_pre_poll_listening env (cleared s))

  -- The new time is not used by the source either.
  unfoldable pub resume_with_anchor : ℕ → SessionOf env → Result (Unit {0}) × SessionOf env
  unfolding arm_pre_poll_listening derive_session_material
  resume_with_anchor sts_index0 s =
      if is_suspended s.state
      then anchored (
          derive_session_material env (record s {
            params = record s.params { sts_index0 = sts_index0 };
            material_valid = false;
          }))
      else (err invalid_state, s)
