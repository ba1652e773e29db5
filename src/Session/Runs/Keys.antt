-- ===== src/Session/Runs/Keys.antt =====
-- In every run of a session the keys of an exchange are those of its material.
use aliro_ccc_core.Base.{
  ℕ, ◌≡◌, refl, ap, subst, Bool, true, false, not, Option, none, some, if-elim,
}
use aliro_ccc_core.Base.Words.{Bytes}
use aliro_ccc_core.Core.{Result, ok, err}
use aliro_ccc_core.Setup.{RangingSessionParameters}
use aliro_ccc_core.Transceiver.Platform.{Controller, set_listener}
use aliro_ccc_core.Transceiver.Phy.{configure_phy}
use aliro_ccc_core.Transceiver.Events.{RxSuccessEvent, handle_driver_rx_success}
use aliro_ccc_core.Session.State.{
  SessionState, uninitialized, idle, pre_poll_listening, awaiting_poll, transmitting_response,
  awaiting_final, awaiting_final_data, suspended, SessionNodeConfig, Environment, SessionOf,
}
use aliro_ccc_core.Session.Material.{derive_session_material}
use aliro_ccc_core.Session.Listening.Cycles.{IsWarm}
use aliro_ccc_core.Session.Exchange.Keyed.{
  IsKeyed, arm_pre_poll_listening-IsKeyed, handle_pre_poll_reception-IsKeyed,
  handle_poll_reception-IsKeyed, transmitted-IsKeyed, handle_final_reception-IsKeyed,
  handle_final_data_reception-IsKeyed,
}
use aliro_ccc_core.Session.Control.{
  is_suspended, hardware_config, cleared, with_phy, given, started, anchored, start, stop, suspend,
  resume, resume_with_anchor,
}
use aliro_ccc_core.Session.Dispatch.{
  rx_success_in, on_rx_success, rx_timeout_in, on_rx_timeout, rx_error_in, on_rx_error,
  tx_complete_in, on_tx_complete, raised, driver_rx_success, heard, driver_rx_timeout,
  driver_rx_error, driver_tx_done,
}
use aliro_ccc_core.Session.Runs.{
  Event, rx_success, rx_timeout, rx_error, tx_done, react, Step, on_event, on_start, on_stop,
  on_suspend, on_resume, on_resume_with_anchor, Reach, here, next,
}

module _ (env : Environment) where
  rx_success_in-IsKeyed :
      (at : SessionState) (event : RxSuccessEvent) (s : SessionOf env)
      → s.state ≡ at
      → IsKeyed env s
      → IsKeyed env (rx_success_in env at event s)
  rx_success_in-IsKeyed pre_poll_listening event s e k =
      handle_pre_poll_reception-IsKeyed env event s k
  rx_success_in-IsKeyed awaiting_poll event s e k = handle_poll_reception-IsKeyed env event s e k
  rx_success_in-IsKeyed awaiting_final event s e k = handle_final_reception-IsKeyed env event s e k
  rx_success_in-IsKeyed awaiting_final_data event s e k =
      handle_final_data_reception-IsKeyed env s k
  rx_success_in-IsKeyed uninitialized event s e k = k
  rx_success_in-IsKeyed idle event s e k = k
  rx_success_in-IsKeyed transmitting_response event s e k = k
  rx_success_in-IsKeyed suspended event s e k = k

  rx_timeout_in-IsKeyed :
      (at : SessionState) (s : SessionOf env) → IsKeyed env s → IsKeyed env (rx_timeout_in env at s)
  rx_timeout_in-IsKeyed idle s k = k
  rx_timeout_in-IsKeyed uninitialized s k = k
  rx_timeout_in-IsKeyed suspended s k = k
  rx_timeout_in-IsKeyed pre_poll_listening s k = record { warm = k.warm; armed = k.armed }
  rx_timeout_in-IsKeyed _ s k = arm_pre_poll_listening-IsKeyed env s k.warm

  rx_error_in-IsKeyed :
      (at : SessionState) (s : SessionOf env) → IsKeyed env s → IsKeyed env (rx_error_in env at s)
  rx_error_in-IsKeyed idle s k = k
  rx_error_in-IsKeyed uninitialized s k = k
  rx_error_in-IsKeyed suspended s k = k
  rx_error_in-IsKeyed _ s k = arm_pre_poll_listening-IsKeyed env s k.warm

  tx_complete_in-IsKeyed :
      (at : SessionState) (s : SessionOf env)
      → s.state ≡ at
      → IsKeyed env s
      → IsKeyed env (tx_complete_in env at s)
  tx_complete_in-IsKeyed transmitting_response s e k = transmitted-IsKeyed env s e k
  tx_complete_in-IsKeyed _ s e k = k

  raised-IsKeyed :
      (s : SessionOf env) (r : Option RxSuccessEvent × Controller)
      → IsKeyed env s
      → IsKeyed env (raised env s r)
  unfolding on_rx_success
  raised-IsKeyed s (none, c) k = record { warm = k.warm; armed = k.armed }
  raised-IsKeyed s (some event, c) k =
      rx_success_in-IsKeyed s.state event (record s { controller = c }) refl
        (record { warm = k.warm; armed = k.armed })

  heard-IsKeyed :
      (handler : SessionOf env → SessionOf env) (s : SessionOf env)
      → IsKeyed env (handler s)
      → IsKeyed env s
      → IsKeyed env (heard env handler s)
  heard-IsKeyed handler s h k =
      if-elim {A = SessionOf env} (IsKeyed env) s.controller.has_listener (λ e. h) (λ e. k)

  react-IsKeyed : (e : Event) (s : SessionOf env) → IsKeyed env s → IsKeyed env (react env e s)
  unfolding react driver_rx_success driver_rx_timeout on_rx_timeout driver_rx_error on_rx_error
      driver_tx_done on_tx_complete
  react-IsKeyed (rx_success status len) s k =
      raised-IsKeyed s (handle_driver_rx_success env.platform status len s.controller) k
  react-IsKeyed rx_timeout s k =
      heard-IsKeyed (on_rx_timeout env) s (rx_timeout_in-IsKeyed s.state s k) k
  react-IsKeyed rx_error s k = heard-IsKeyed (on_rx_error env) s (rx_error_in-IsKeyed s.state s k) k
  react-IsKeyed tx_done s k =
      heard-IsKeyed (on_tx_complete env) s (tx_complete_in-IsKeyed s.state s refl k) k

  cleared-IsWarm : (s : SessionOf env) → IsWarm env (cleared env s)
  cleared-IsWarm s v = cc

  abbrev Keeps : Result (Unit {0}) × SessionOf env → Type 0
  Keeps r =
      (t : SessionOf env) → ◌≡◌ {A = Result (Unit {0}) × SessionOf env} r (ok tt, t) → IsKeyed env t

  with_phy-IsKeyed :
      (s : SessionOf env) (r : Result (Unit {0}) × Controller)
      → IsWarm env s
      → Keeps (with_phy env s r)
  with_phy-IsKeyed s (err e, c) w t h = cc (ap (λ p. p.0) h)
  with_phy-IsKeyed s (ok done, c) w t h =
      subst (IsKeyed env) (ap (λ p. p.1) h)
        (arm_pre_poll_listening-IsKeyed env (record s { controller = set_listener true c }) w)

  started-IsKeyed : (s : SessionOf env) → Keeps (started env s)
  started-IsKeyed s =
      if-elim {A = Result (Unit {0}) × SessionOf env} Keeps (not s.material_valid)
        (λ e t h. cc (ap (λ p. p.0) h))
        (λ e.
          with_phy-IsKeyed (cleared env s)
            (configure_phy env.platform (hardware_config env s) s.controller) (cleared-IsWarm s))

  anchored-IsKeyed : (s : SessionOf env) → Keeps (anchored env s)
  anchored-IsKeyed s =
      if-elim {A = Result (Unit {0}) × SessionOf env} Keeps (not s.material_valid)
        (λ e t h. cc (ap (λ p. p.0) h))
        (λ e t h.
          subst (IsKeyed env) (ap (λ p. p.1) h)
            (arm_pre_poll_listening-IsKeyed env (cleared env s) (cleared-IsWarm s)))

  start-IsKeyed :
      (ursk : Bytes) (params : RangingSessionParameters)
      (config : SessionNodeConfig env.floats.Float) (has_callback : Bool) (s : SessionOf env)
      → Keeps (start env ursk params config has_callback s)
  unfolding start
  start-IsKeyed ursk params config has_callback s =
      started-IsKeyed (derive_session_material env (given env ursk params config has_callback s))

  resume_with_anchor-IsKeyed :
      (sts_index0 : ℕ) (s : SessionOf env) → Keeps (resume_with_anchor env sts_index0 s)
  unfolding resume_with_anchor
  resume_with_anchor-IsKeyed sts_index0 s =
      if-elim {A = Result (Unit {0}) × SessionOf env} Keeps (is_suspended s.state)
        (λ e. anchored-IsKeyed (
          derive_session_material env (record s {
            params = record s.params { sts_index0 = sts_index0 };
            material_valid = false;
          })))
        (λ e t h. cc (ap (λ p. p.0) h))

  resume-IsKeyed : (s : SessionOf env) → IsKeyed env s → Keeps (resume env s)
  unfolding resume
  resume-IsKeyed s k =
      if-elim {A = Result (Unit {0}) × SessionOf env} Keeps (is_suspended s.state)
        (λ e t h.
          subst (IsKeyed env) (ap (λ p. p.1) h) (arm_pre_poll_listening-IsKeyed env s k.warm))
        (λ e t h. cc (ap (λ p. p.0) h))

  stop-IsKeyed : (s : SessionOf env) → IsKeyed env s → IsKeyed env (stop env s)
  unfolding stop
  stop-IsKeyed s k = record { warm = k.warm; armed = λ e. cc }

  suspend-IsKeyed : (s : SessionOf env) → IsKeyed env s → IsKeyed env (suspend env s)
  unfolding suspend
  suspend-IsKeyed s k = record { warm = k.warm; armed = λ e. cc }

  Step-IsKeyed : {s t : SessionOf env} → Step env s t → IsKeyed env s → IsKeyed env t
  Step-IsKeyed {s} (on_event e) k = react-IsKeyed e s k
  Step-IsKeyed {s} {t} (on_start ursk params config has_callback h) k =
      start-IsKeyed ursk params config has_callback s t h
  Step-IsKeyed {s} on_stop k = stop-IsKeyed s k
  Step-IsKeyed {s} on_suspend k = suspend-IsKeyed s k
  Step-IsKeyed {s} {t} (on_resume h) k = resume-IsKeyed s k t h
  Step-IsKeyed {s} {t} (on_resume_with_anchor i h) k = resume_with_anchor-IsKeyed i s t h

  -- In every session that is reached from a keyed one by events of the driver, stops, suspensions,
  -- and starts and resumes that succeed, the warm keys, where they are valid, are the keys that the
  -- session's material gives for the three legs of their Poll slot; and in an exchange the armed
  -- keys, where they are valid, are those of the Poll slot that is awaited.
  pub Reach-IsKeyed : {s t : SessionOf env} → Reach env s t → IsKeyed env s → IsKeyed env t
  Reach-IsKeyed here k = k
  Reach-IsKeyed (next r step) k = Step-IsKeyed step (Reach-IsKeyed r k)
