-- ===== src/Session/Runs/Machine.antt =====
-- The state that each handler of a session ends in.
use aliro_ccc_core.Base.{ℕ, ◌≡◌, refl, ap, not, ◌&&◌, ◌⊎◌, inl, inr, if-elim}
use aliro_ccc_core.Base.Words.{Bytes}
use aliro_ccc_core.Core.{Result, ok, err}
use aliro_ccc_core.Frame.{MacHeader, decode_header}
use aliro_ccc_core.Transceiver.Events.{RxSuccessEvent}
use aliro_ccc_core.Session.PrePoll.{header_ok, is_stale}
use aliro_ccc_core.Session.State.{
  SessionState, uninitialized, idle, pre_poll_listening, awaiting_poll, transmitting_response,
  awaiting_final, awaiting_final_data, suspended, Environment, SessionOf, keys_of,
}
use aliro_ccc_core.Session.Listening.{arm_pre_poll_listening}
use aliro_ccc_core.Session.Listening.Kept.{
  arm_pre_poll_listening-kept, refresh_warm_keys-kept, process_stashed_pre_poll-kept,
}
use aliro_ccc_core.Session.Exchange.Rules.{
  handle_pre_poll_reception_rule, handle_poll_reception_rule, transmitted_rule,
}
use aliro_ccc_core.Session.FinalData.FinalRules.{handle_final_data_reception_rule}
use aliro_ccc_core.Session.Exchange.{
  final_seen, await_poll, arm_with, stash, check_header, arm_warm, handle_pre_poll_reception,
  handle_poll_reception, transmitted, handle_final_reception,
}
use aliro_ccc_core.Session.FinalData.{handle_final_data_reception}
use aliro_ccc_core.Session.Dispatch.{rx_success_in, rx_timeout_in, rx_error_in, tx_complete_in}

-- Where a reception leads.
abbrev pub AfterRx : SessionState → SessionState → Type 0
AfterRx pre_poll_listening b = (b ≡ awaiting_poll) ⊎ (b ≡ pre_poll_listening)
AfterRx awaiting_poll b = (b ≡ transmitting_response) ⊎ (b ≡ pre_poll_listening)
AfterRx awaiting_final b = b ≡ awaiting_final_data
AfterRx awaiting_final_data b = b ≡ pre_poll_listening
AfterRx a b = b ≡ a

-- Where a timeout and an error lead.
abbrev pub after_loss : SessionState → SessionState
after_loss uninitialized = uninitialized
after_loss idle = idle
after_loss suspended = suspended
after_loss _ = pre_poll_listening

abbrev pub AfterTx : SessionState → SessionState → Type 0
AfterTx transmitting_response b = (b ≡ awaiting_final) ⊎ (b ≡ pre_poll_listening)
AfterTx a b = b ≡ a

module _ (env : Environment) where
  pub arm_pre_poll_listening-state :
      (s : SessionOf env) → (arm_pre_poll_listening env s).state ≡ pre_poll_listening
  arm_pre_poll_listening-state s = ap (λ k. k.state) (arm_pre_poll_listening-kept env s)

  check_header-state :
      (s : SessionOf env) (r : Result MacHeader) → (check_header env s r).state ≡ s.state
  check_header-state s (err e) = refl
  check_header-state s (ok h) =
      if-elim {A = SessionOf env} (λ t. t.state ≡ s.state)
        (header_ok (keys_of s) h && not (is_stale s.freshness h)) (λ e. refl) (λ e. refl)

  arm_warm-state :
      (frame : Bytes) (time : ℕ) (s : SessionOf env)
      → (arm_warm env frame time s).state ≡ awaiting_poll
  unfolding arm_warm
  arm_warm-state frame time s =
      check_header-state (await_poll env time (stash env frame (arm_with env s.warm s)))
        (decode_header frame)

  -- No knowledge of the members is needed for the state.
  abbrev Anything : {A : Type 0} → A → Type 0
  Anything a = Unit {0}

  handle_pre_poll_reception-state :
      (event : RxSuccessEvent) (s : SessionOf env)
      → AfterRx pre_poll_listening (handle_pre_poll_reception env event s).state
  handle_pre_poll_reception-state event s =
      handle_pre_poll_reception_rule env Anything (λ t. AfterRx pre_poll_listening t.state)
        (λ t q. inr (arm_pre_poll_listening-state t))
        (λ t frame time q v. inl (arm_warm-state frame time t))
        (λ t time poll out keys q h. inl (
          ap (λ k. k.state)
            (refresh_warm_keys-kept env (await_poll env time (arm_with env keys t)))))
        event s tt

  handle_poll_reception-state :
      (event : RxSuccessEvent) (s : SessionOf env)
      → AfterRx awaiting_poll (handle_poll_reception env event s).state
  handle_poll_reception-state event s =
      handle_poll_reception_rule env Anything (λ t. AfterRx awaiting_poll t.state)
        (λ t q. inr (arm_pre_poll_listening-state t)) event s tt (λ c. inl refl)

  transmitted-state : (s : SessionOf env) → AfterTx transmitting_response (transmitted env s).state
  transmitted-state s =
      transmitted_rule env Anything (λ t. AfterTx transmitting_response t.state)
        (λ t q. inr (arm_pre_poll_listening-state t)) s tt (λ timestamp c. inl refl)

  pub handle_final_reception-state :
      (event : RxSuccessEvent) (s : SessionOf env)
      → (handle_final_reception env event s).state ≡ awaiting_final_data
  unfolding handle_final_reception
  handle_final_reception-state event s =
      ap (λ k. k.state) (process_stashed_pre_poll-kept env (final_seen env event s))

  pub handle_final_data_reception-state :
      (s : SessionOf env) → (handle_final_data_reception env s).state ≡ pre_poll_listening
  handle_final_data_reception-state s =
      handle_final_data_reception_rule env Anything (λ t. t.state ≡ pre_poll_listening)
        (λ t q. arm_pre_poll_listening-state t) s tt

  pub rx_success_in-state :
      (at : SessionState) (event : RxSuccessEvent) (s : SessionOf env)
      → s.state ≡ at
      → AfterRx at (rx_success_in env at event s).state
  rx_success_in-state pre_poll_listening event s e = handle_pre_poll_reception-state event s
  rx_success_in-state awaiting_poll event s e = handle_poll_reception-state event s
  rx_success_in-state awaiting_final event s e = handle_final_reception-state event s
  rx_success_in-state awaiting_final_data event s e = handle_final_data_reception-state s
  rx_success_in-state uninitialized event s e = e
  rx_success_in-state idle event s e = e
  rx_success_in-state transmitting_response event s e = e
  rx_success_in-state suspended event s e = e

  pub rx_timeout_in-state :
      (at : SessionState) (s : SessionOf env)
      → s.state ≡ at
      → (rx_timeout_in env at s).state ≡ after_loss at
  rx_timeout_in-state uninitialized s e = e
  rx_timeout_in-state idle s e = e
  rx_timeout_in-state suspended s e = e
  rx_timeout_in-state pre_poll_listening s e = e
  rx_timeout_in-state _ s e = arm_pre_poll_listening-state s

  pub rx_error_in-state :
      (at : SessionState) (s : SessionOf env)
      → s.state ≡ at
      → (rx_error_in env at s).state ≡ after_loss at
  rx_error_in-state uninitialized s e = e
  rx_error_in-state idle s e = e
  rx_error_in-state suspended s e = e
  rx_error_in-state _ s e = arm_pre_poll_listening-state s

  pub tx_complete_in-state :
      (at : SessionState) (s : SessionOf env)
      → s.state ≡ at
      → AfterTx at (tx_complete_in env at s).state
  tx_complete_in-state transmitting_response s e = transmitted-state s
  tx_complete_in-state uninitialized s e = e
  tx_complete_in-state idle s e = e
  tx_complete_in-state pre_poll_listening s e = e
  tx_complete_in-state awaiting_poll s e = e
  tx_complete_in-state awaiting_final s e = e
  tx_complete_in-state awaiting_final_data s e = e
  tx_complete_in-state suspended s e = e
