-- ===== src/Session/Exchange/Silent.antt =====
-- The legs before the Final-Data report nothing, and leave the counter of the Final-Data alone.
use aliro_ccc_core.Base.{ℕ, ◌≡◌, refl, ap, ◌∙◌, Bool, not, ◌&&◌, List, if-elim}
use aliro_ccc_core.Base.Words.{Bytes}
use aliro_ccc_core.Core.{Result, ok, err}
use aliro_ccc_core.Frame.{MacHeader, decode_header}
use aliro_ccc_core.Ranging.Consensus.{RangeConsensusFilter}
use aliro_ccc_core.Transceiver.Events.{RxSuccessEvent}
use aliro_ccc_core.Session.PrePoll.{header_ok, is_stale}
use aliro_ccc_core.Session.State.{RangingResult, Environment, Session, SessionOf, keys_of}
use aliro_ccc_core.Session.Listening.{arm_pre_poll_listening}
use aliro_ccc_core.Session.Listening.Kept.{
  Kept, arm_pre_poll_listening-kept, refresh_warm_keys-kept, process_stashed_pre_poll-kept,
}
use aliro_ccc_core.Session.Exchange.Rules.{
  Fixed, handle_pre_poll_reception_rule, handle_poll_reception_rule, transmitted_rule,
}
use aliro_ccc_core.Session.Exchange.{
  final_seen, await_poll, arm_with, stash, check_header, arm_warm, handle_pre_poll_reception,
  handle_poll_reception, transmitted, handle_final_reception,
}

-- What was reported and how, and the frame counter that was last seen with it.
pub record Ledger : Type 0 where
  pub results : List RangingResult
  pub filter : RangeConsensusFilter
  pub has_callback : Bool
  pub last_counter : ℕ
  pub has_counter : Bool

abbrev pub ledger_in : Kept → Ledger
ledger_in k = record {
  results = k.results;
  filter = k.filter;
  has_callback = k.has_callback;
  last_counter = k.last_final_data_counter;
  has_counter = k.has_received_final_data_counter;
}

abbrev pub ledger : {F : Type 0} → Session F → Ledger
ledger s = record {
  results = s.results;
  filter = s.filter;
  has_callback = s.has_callback;
  last_counter = s.last_final_data_counter;
  has_counter = s.has_received_final_data_counter;
}

abbrev ledger_of_fixed : Fixed → Ledger
ledger_of_fixed f = record {
  results = f.results;
  filter = f.filter;
  has_callback = f.has_callback;
  last_counter = f.last_final_data_counter;
  has_counter = f.has_received_final_data_counter;
}

module _ (env : Environment) where
  pub arm_pre_poll_listening-ledger :
      (s : SessionOf env) → ledger (arm_pre_poll_listening env s) ≡ ledger s
  arm_pre_poll_listening-ledger s = ap ledger_in (arm_pre_poll_listening-kept env s)

  abbrev Silent : Ledger → SessionOf env → Type 0
  Silent l t = ledger t ≡ l

  check_header-ledger :
      (s : SessionOf env) (r : Result MacHeader) → Silent (ledger s) (check_header env s r)
  check_header-ledger s (err e) = refl
  check_header-ledger s (ok h) =
      if-elim {A = SessionOf env} (Silent (ledger s))
        (header_ok (keys_of s) h && not (is_stale s.freshness h)) (λ e. refl) (λ e. refl)

  arm_warm-ledger :
      (frame : Bytes) (time : ℕ) (s : SessionOf env) → Silent (ledger s) (arm_warm env frame time s)
  unfolding arm_warm
  arm_warm-ledger frame time s =
      check_header-ledger (await_poll env time (stash env frame (arm_with env s.warm s)))
        (decode_header frame)

  abbrev Had : Ledger → Fixed → Type 0
  Had l f = ledger_of_fixed f ≡ l

  listening-Silent :
      (l : Ledger) (t : SessionOf env) → ledger t ≡ l → Silent l (arm_pre_poll_listening env t)
  listening-Silent l t q = arm_pre_poll_listening-ledger t ∙ q

  pub handle_pre_poll_reception-ledger :
      (event : RxSuccessEvent) (s : SessionOf env)
      → Silent (ledger s) (handle_pre_poll_reception env event s)
  handle_pre_poll_reception-ledger event s =
      handle_pre_poll_reception_rule env (Had (ledger s)) (Silent (ledger s))
        (listening-Silent (ledger s)) (λ t frame time q v. arm_warm-ledger frame time t ∙ q)
        (λ t time poll out keys q h.
          ap ledger_in (refresh_warm_keys-kept env (await_poll env time (arm_with env keys t))) ∙ q)
        event s refl

  pub handle_poll_reception-ledger :
      (event : RxSuccessEvent) (s : SessionOf env)
      → Silent (ledger s) (handle_poll_reception env event s)
  handle_poll_reception-ledger event s =
      handle_poll_reception_rule env (Had (ledger s)) (Silent (ledger s))
        (listening-Silent (ledger s)) event s refl (λ c. refl)

  pub transmitted-ledger : (s : SessionOf env) → Silent (ledger s) (transmitted env s)
  transmitted-ledger s =
      transmitted_rule env (Had (ledger s)) (Silent (ledger s)) (listening-Silent (ledger s)) s refl
        (λ timestamp c. refl)

  pub handle_final_reception-ledger :
      (event : RxSuccessEvent) (s : SessionOf env)
      → Silent (ledger s) (handle_final_reception env event s)
  unfolding handle_final_reception
  handle_final_reception-ledger event s =
      ap ledger_in (process_stashed_pre_poll-kept env (final_seen env event s))
