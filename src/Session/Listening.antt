-- ===== src/Session/Listening.antt =====
-- src/session/RangingSession.cpp: listening for a Pre-Poll, the stashed one, and the keys that are
-- derived ahead.
pub mod Kept
pub mod Cycles
use aliro_ccc_core.Base.{ℕ, ◌%◌, Bool, true, false, Option, none, some, take, ◌==◌, if◌then◌else◌}
use aliro_ccc_core.Base.Int.{ℤ, pos, ltb_ℤ}
use aliro_ccc_core.Core.{Result, ok, err}
use aliro_ccc_core.Frame.{PrePollPayload}
use aliro_ccc_core.Ranging.Nlos.{is_eq_ℤ}
use aliro_ccc_core.Transceiver.Platform.{Controller, force_receiver_off}
use aliro_ccc_core.Transceiver.StsKeys.{StsMode, set_sts_mode}
use aliro_ccc_core.Transceiver.Arming.{start_immediate_rx}
use aliro_ccc_core.Session.Cycle.{CycleKeys, derive_cycle_keys}
use aliro_ccc_core.Session.PrePoll.{Freshness, decode_pre_poll_frame}
use aliro_ccc_core.Session.Schedule.{next_scheduled_exchange, poll_sts_index_for}
use aliro_ccc_core.Session.State.{
  SessionState, pre_poll_listening, SessionNodeConfig, Environment, Session, SessionOf, keys_of,
}

-- `blockParityFilter < 0`, or the block's lowest bit is the filter.
abbrev pub is_block_parity_eligible : {F : Type 0} → SessionNodeConfig F → ℕ → Bool
is_block_parity_eligible config block =
    if ltb_ℤ config.block_parity_filter (pos 0)
    then true
    else is_eq_ℤ (pos (block % 2)) config.block_parity_filter

module _ (env : Environment) where
  -- `deriveCycleKeys` with the members of the session.
  abbrev pub cycle_keys_of : SessionOf env → ℕ → CycleKeys → Result (Unit {0}) × CycleKeys
  cycle_keys_of s poll out =
      derive_cycle_keys env.crypto s.mursk s.salted_hash s.params s.node_config.responder_index poll
        out

  abbrev pub warmed : SessionOf env → Result (Unit {0}) × CycleKeys → SessionOf env
  warmed s (ok done, keys) = record s { warm = keys; warm_valid = true }
  warmed s (err e, keys) = record s { warm = keys; warm_valid = false }

  abbrev pub refreshed : SessionOf env → Option (ℕ × ℕ) → SessionOf env
  refreshed s none = record s { warm_valid = false }
  refreshed s (some (block, round)) =
      warmed s (cycle_keys_of s (poll_sts_index_for s.params block round) s.warm)

  unfoldable pub refresh_warm_keys : SessionOf env → SessionOf env
  refresh_warm_keys s =
      refreshed s (next_scheduled_exchange s.params s.current_block s.current_round)

  -- What an accepted Pre-Poll changes before its keys are derived.
  abbrev pub announced : SessionOf env → Freshness → PrePollPayload → SessionOf env
  announced s f p = record s {
    freshness = f;
    current_block = p.ranging_block;
    current_round = p.round_index;
  }

  abbrev pub stashed : SessionOf env → Result PrePollPayload × Freshness → SessionOf env
  stashed s (err e, f) = record s { freshness = f; warm_valid = false }
  stashed s (ok p, f) =
      if is_block_parity_eligible s.node_config p.ranging_block
      then refresh_warm_keys (announced s f p)
      else announced s f p

  unfoldable pub process_stashed_pre_poll : SessionOf env → SessionOf env
  unfolding refresh_warm_keys
  process_stashed_pre_poll s =
      if s.stash_len == 0
      then s
      else stashed (record s { stash_len = 0 })
          (decode_pre_poll_frame env.crypto (keys_of s) s.freshness
            (take s.stash_len s.stash_frame))

  -- A failure to start the receiver is not looked at.
  abbrev pub listening_controller : Controller → Controller
  listening_controller c =
      (start_immediate_rx env.platform 0 (set_sts_mode StsMode.off (force_receiver_off c))).1

  unfoldable pub arm_pre_poll_listening : SessionOf env → SessionOf env
  unfolding process_stashed_pre_poll
  arm_pre_poll_listening s =
      process_stashed_pre_poll
        (record s { controller = listening_controller s.controller; state = pre_poll_listening })
