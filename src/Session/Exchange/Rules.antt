-- ===== src/Session/Exchange/Rules.antt =====
-- Rules for what holds after each leg of an exchange: it need only be shown for the ways in which the
-- leg can end.
use aliro_ccc_core.Base.{ℕ, ◌+◌, ◌≡◌, refl, Bool, true, not, List, [], take, ltb, if-elim}
use aliro_ccc_core.Base.Words.{Bytes}
use aliro_ccc_core.Core.{Result, ok, err}
use aliro_ccc_core.Frame.{PrePollPayload, mac_header_length}
use aliro_ccc_core.Ranging.Consensus.{RangeConsensusFilter}
use aliro_ccc_core.Transceiver.Platform.{Controller, force_receiver_off}
use aliro_ccc_core.Transceiver.Arming.{start_delayed_tx}
use aliro_ccc_core.Transceiver.Reading.{read_received_data, read_tx_timestamp_dtu}
use aliro_ccc_core.Transceiver.Events.{RxSuccessEvent}
use aliro_ccc_core.Session.Cycle.{CycleKeys}
use aliro_ccc_core.Session.PrePoll.{Freshness, decode_pre_poll_frame}
use aliro_ccc_core.Session.State.{
  RangingResult, transmitting_response, awaiting_final, Environment, Session, SessionOf, keys_of,
}
use aliro_ccc_core.Session.Listening.{
  is_block_parity_eligible, cycle_keys_of, refresh_warm_keys, announced, arm_pre_poll_listening,
}
use aliro_ccc_core.Session.Listening.Kept.{SlotMaterial, material_of}
use aliro_ccc_core.Session.Exchange.{
  resp_ant_delay_hi32, lead_time_hi32, hi32, slot_time, load_leg, await_poll, arm_with, arm_warm,
  bootstrapped, with_pre_poll, bootstrap, with_frame, handle_pre_poll_reception, responding,
  handle_poll_reception, transmitted,
}

-- The keys that were derived ahead, and what keys are derived of.
pub record Warmth : Type 0 where
  pub material : SlotMaterial
  pub warm : CycleKeys
  pub warm_valid : Bool

abbrev pub warmth : {F : Type 0} → Session F → Warmth
warmth s = record { material = material_of s; warm = s.warm; warm_valid = s.warm_valid }

-- The members that every leg keeps until it listens again or arms the next window.
pub record Fixed : Type 0 where
  pub warmth_kept : Warmth
  pub results : List RangingResult
  pub filter : RangeConsensusFilter
  pub has_callback : Bool
  pub last_final_data_counter : ℕ
  pub has_received_final_data_counter : Bool

abbrev pub fixed : {F : Type 0} → Session F → Fixed
fixed s = record {
  warmth_kept = warmth s;
  results = s.results;
  filter = s.filter;
  has_callback = s.has_callback;
  last_final_data_counter = s.last_final_data_counter;
  has_received_final_data_counter = s.has_received_final_data_counter;
}

-- `Q` is what is known of the fixed members before, `P` what is to hold after.
module _ (env : Environment) (Q : Fixed → Type 0) (P : SessionOf env → Type 0) where
  abbrev Listens : Type 0
  Listens = (t : SessionOf env) → Q (fixed t) → P (arm_pre_poll_listening env t)

  module _ (listens : Listens) where
    -- A Pre-Poll: back to listening; the warm keys armed; or the keys of the frame.
    module _
        (arms : (t : SessionOf env) (frame : Bytes) (time : ℕ)
          → Q (fixed t)
          → t.warm_valid ≡ true
          → P (arm_warm env frame time t))
        (boots : (t : SessionOf env) (time poll : ℕ) (out keys : CycleKeys)
          → Q (fixed t)
          → cycle_keys_of env t poll out ≡ (ok tt, keys)
          → P (refresh_warm_keys env (await_poll env time (arm_with env keys t)))) where
      bootstrapped_rule :
          (time poll : ℕ) (out : CycleKeys) (s : SessionOf env) (r : Result (Unit {0}) × CycleKeys)
          → Q (fixed s)
          → cycle_keys_of env s poll out ≡ r
          → P (bootstrapped env time s r)
      bootstrapped_rule time poll out s (err e, keys) q h = listens (record s { armed = keys }) q
      bootstrapped_rule time poll out s (ok done, keys) q h = boots s time poll out keys q h

      with_pre_poll_rule :
          (time : ℕ) (s : SessionOf env) (r : Result PrePollPayload × Freshness)
          → Q (fixed s)
          → P (with_pre_poll env time s r)
      with_pre_poll_rule time s (err e, f) q = listens (record s { freshness = f }) q
      with_pre_poll_rule time s (ok p, f) q =
          if-elim {A = SessionOf env} P (is_block_parity_eligible s.node_config p.ranging_block)
            (λ e.
              bootstrapped_rule time p.poll_sts_index s.armed
                (record (announced env s f p) { controller = force_receiver_off s.controller })
                (cycle_keys_of env s p.poll_sts_index s.armed) q refl)
            (λ e. listens (announced env s f p) q)

      bootstrap_rule :
          (frame : Bytes) (time : ℕ) (s : SessionOf env)
          → Q (fixed s)
          → P (bootstrap env frame time s)
      unfolding bootstrap
      bootstrap_rule frame time s q =
          with_pre_poll_rule time s (decode_pre_poll_frame env.crypto (keys_of s) s.freshness frame)
            q

      with_frame_rule :
          (time : ℕ) (s : SessionOf env) (r : Result ℕ × Bytes × Controller)
          → Q (fixed s)
          → P (with_frame env time s r)
      with_frame_rule time s (err e, buffer, c) q =
          listens (record s { rx_frame_buffer = buffer; controller = c }) q
      with_frame_rule time s (ok n, buffer, c) q =
          let s' : SessionOf env = record s { rx_frame_buffer = buffer; controller = c } in
          if-elim {A = SessionOf env} P (ltb n mac_header_length) (λ e. listens s' q)
            (λ e.
              if-elim {A = SessionOf env} P s.warm_valid (λ v. arms s' (take n buffer) time q v)
                (λ v. bootstrap_rule (take n buffer) time s' q))

      pub handle_pre_poll_reception_rule :
          (event : RxSuccessEvent) (s : SessionOf env)
          → Q (fixed s)
          → P (handle_pre_poll_reception env event s)
      unfolding handle_pre_poll_reception
      handle_pre_poll_reception_rule event s q =
          with_frame_rule (slot_time s.params (hi32 event.rx_timestamp_dtu) 1 lead_time_hi32) s
            (read_received_data env.platform s.rx_frame_buffer 0 s.controller) q

    -- A Poll: back to listening, or the response under way.
    responding_rule :
        (s : SessionOf env) (r : Result (Unit {0}) × Controller)
        → Q (fixed s)
        → ((c : Controller) → P (record s { controller = c; state = transmitting_response }))
        → P (responding env s r)
    responding_rule s (ok done, c) q sends = sends c
    responding_rule s (err e, c) q sends = listens (record s { controller = c }) q

    pub handle_poll_reception_rule :
        (event : RxSuccessEvent) (s : SessionOf env)
        → Q (fixed s)
        → ((c : Controller)
            → P (record s {
              poll_rx_timestamp_dtu = event.rx_timestamp_dtu;
              controller = c;
              state = transmitting_response;
            }))
        → P (handle_poll_reception env event s)
    unfolding handle_poll_reception
    handle_poll_reception_rule event s q sends =
        let seen : SessionOf env = record s { poll_rx_timestamp_dtu = event.rx_timestamp_dtu } in
        let time =
          slot_time s.params (hi32 event.rx_timestamp_dtu) (1 + s.node_config.responder_index)
            resp_ant_delay_hi32 in
        if-elim {A = SessionOf env} P (not event.sts_passed) (λ e. listens s q)
          (λ e.
            if-elim {A = SessionOf env} P (not s.armed_keys_valid) (λ v. listens seen q)
              (λ v.
                responding_rule seen
                  (start_delayed_tx env.platform time [] true
                    (load_leg env s.armed.response s.controller))
                  q sends))

    -- The end of the transmission: back to listening, or the Final's window open.
    pub transmitted_rule :
        (s : SessionOf env)
        → Q (fixed s)
        → ((timestamp : ℕ) (c : Controller)
            → P (record s {
              resp_tx_timestamp_dtu = timestamp;
              controller = c;
              state = awaiting_final;
            }))
        → P (transmitted env s)
    unfolding transmitted
    transmitted_rule s q awaits =
        let (timestamp, c) = read_tx_timestamp_dtu env.platform s.controller in
        if-elim {A = SessionOf env} P (not s.armed_keys_valid)
          (λ v. listens (record s { resp_tx_timestamp_dtu = timestamp; controller = c }) q)
          (λ v. awaits timestamp _)
