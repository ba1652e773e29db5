-- ===== src/Session/Listening/Kept.antt =====
-- What listening and the stashed Pre-Poll leave alone: all but the receiver, the state, the schedule's
-- place, the freshness and the warm keys.
use aliro_ccc_core.Base.{ℕ, ◌≡◌, refl, Bool, Option, none, some, List, take, ◌==◌, if-elim}
use aliro_ccc_core.Base.Words.{Bytes}
use aliro_ccc_core.Core.{Result, ok, err, MacAddresses}
use aliro_ccc_core.Frame.{PrePollPayload}
use aliro_ccc_core.Ranging.Consensus.{RangeConsensusFilter}
use aliro_ccc_core.Setup.{RangingSessionParameters}
use aliro_ccc_core.Transceiver.Platform.{Controller}
use aliro_ccc_core.Session.Cycle.{CycleKeys}
use aliro_ccc_core.Session.PrePoll.{Freshness, decode_pre_poll_frame}
use aliro_ccc_core.Session.Schedule.{next_scheduled_exchange, poll_sts_index_for}
use aliro_ccc_core.Session.State.{
  SessionState, pre_poll_listening, RangingResult, Environment, Session, SessionOf, keys_of,
}
use aliro_ccc_core.Session.Listening.{
  is_block_parity_eligible, cycle_keys_of, warmed, refreshed, refresh_warm_keys, announced, stashed,
  process_stashed_pre_poll, listening_controller, arm_pre_poll_listening,
}

-- What the keys of a slot are derived of.
pub record SlotMaterial : Type 0 where
  pub mursk : Bytes
  pub salted_hash : Bytes
  pub params : RangingSessionParameters
  pub responder_index : ℕ

abbrev pub material_of : {F : Type 0} → Session F → SlotMaterial
material_of s = record {
  mursk = s.mursk;
  salted_hash = s.salted_hash;
  params = s.params;
  responder_index = s.node_config.responder_index;
}

-- The members of the session that its material and its exchange consist of.
pub record Kept : Type 0 where
  pub controller : Controller
  pub state : SessionState
  pub results : List RangingResult
  pub filter : RangeConsensusFilter
  pub has_callback : Bool
  pub ursk : Bytes
  pub mupsk1 : Bytes
  pub mupsk2 : Bytes
  pub addresses : MacAddresses
  pub material : SlotMaterial
  pub armed_poll_sts_index : ℕ
  pub armed_keys_valid : Bool
  pub armed : CycleKeys
  pub last_final_data_counter : ℕ
  pub has_received_final_data_counter : Bool

abbrev pub kept : {F : Type 0} → Session F → Kept
kept s = record {
  controller = s.controller;
  state = s.state;
  results = s.results;
  filter = s.filter;
  has_callback = s.has_callback;
  ursk = s.ursk;
  mupsk1 = s.mupsk1;
  mupsk2 = s.mupsk2;
  addresses = s.addresses;
  material = material_of s;
  armed_poll_sts_index = s.armed_poll_sts_index;
  armed_keys_valid = s.armed_keys_valid;
  armed = s.armed;
  last_final_data_counter = s.last_final_data_counter;
  has_received_final_data_counter = s.has_received_final_data_counter;
}

module _ (env : Environment) where
  warmed-kept :
      (s : SessionOf env) (r : Result (Unit {0}) × CycleKeys) → kept (warmed env s r) ≡ kept s
  warmed-kept s (ok done, keys) = refl
  warmed-kept s (err e, keys) = refl

  refreshed-kept :
      (s : SessionOf env) (next : Option (ℕ × ℕ)) → kept (refreshed env s next) ≡ kept s
  refreshed-kept s none = refl
  refreshed-kept s (some (block, round)) =
      warmed-kept s (cycle_keys_of env s (poll_sts_index_for s.params block round) s.warm)

  pub refresh_warm_keys-kept : (s : SessionOf env) → kept (refresh_warm_keys env s) ≡ kept s
  unfolding refresh_warm_keys
  refresh_warm_keys-kept s =
      refreshed-kept s (next_scheduled_exchange s.params s.current_block s.current_round)

  stashed-kept :
      (s : SessionOf env) (r : Result PrePollPayload × Freshness) → kept (stashed env s r) ≡ kept s
  stashed-kept s (err e, f) = refl
  stashed-kept s (ok p, f) =
      if-elim {A = SessionOf env} (λ t. kept t ≡ kept s)
        (is_block_parity_eligible s.node_config p.ranging_block)
        (λ e. refresh_warm_keys-kept (announced env s f p)) (λ e. refl)

  pub process_stashed_pre_poll-kept :
      (s : SessionOf env) → kept (process_stashed_pre_poll env s) ≡ kept s
  unfolding process_stashed_pre_poll
  process_stashed_pre_poll-kept s =
      if-elim {A = SessionOf env} (λ t. kept t ≡ kept s) (s.stash_len == 0) (λ e. refl)
        (λ e.
          stashed-kept (record s { stash_len = 0 })
            (decode_pre_poll_frame env.crypto (keys_of s) s.freshness
              (take s.stash_len s.stash_frame)))

  pub arm_pre_poll_listening-kept :
      (s : SessionOf env)
      → kept (arm_pre_poll_listening env s) ≡ record (kept s) {
        controller = listening_controller env s.controller;
        state = pre_poll_listening;
      }
  unfolding arm_pre_poll_listening
  arm_pre_poll_listening-kept s =
      process_stashed_pre_poll-kept (record s {
        controller = listening_controller env s.controller;
        state = pre_poll_listening;
      })
