-- ===== src/Session/Runs/Transitions.antt =====
-- The session as a machine of its eight states, moved by the driver's callbacks.
use aliro_ccc_core.Base.{ℕ, ◌≡◌, refl, Bool, true, false, none, some, if◌then◌else◌}
use aliro_ccc_core.Transceiver.Platform.{Controller}
use aliro_ccc_core.Transceiver.Reading.{read_rx_timestamp_dtu}
use aliro_ccc_core.Transceiver.Events.{
  RxSuccessEvent, rx_event, after_pdoa, handle_driver_rx_success,
}
use aliro_ccc_core.Session.State.{SessionState, Environment, SessionOf}
use aliro_ccc_core.Session.Dispatch.{
  on_rx_success, on_rx_timeout, on_rx_error, on_tx_complete, raised, driver_rx_success,
  driver_rx_timeout, driver_rx_error, driver_tx_done,
}
use aliro_ccc_core.Session.Runs.{Event, rx_success, rx_timeout, rx_error, tx_done, react}
use aliro_ccc_core.Session.Runs.Machine.{
  AfterRx, AfterTx, after_loss, rx_success_in-state, rx_timeout_in-state, rx_error_in-state,
  tx_complete_in-state,
}

-- The machine; without a listener it stands still.
abbrev pub Allowed : Bool → Event → SessionState → SessionState → Type 0
Allowed false e a b = b ≡ a
Allowed true (rx_success status len) a b = AfterRx a b
Allowed true rx_timeout a b = b ≡ after_loss a
Allowed true rx_error a b = b ≡ after_loss a
Allowed true tx_done a b = AfterTx a b

module _ (env : Environment) where
  raised-Allowed :
      (listens : Bool) (s : SessionOf env) (status len : ℕ) (event : RxSuccessEvent)
      (c : Controller)
      → Allowed listens
          (rx_success status len)
          s.state
          (raised env s (if listens then (some event, c) else (none, s.controller))).state
  unfolding on_rx_success
  raised-Allowed true s status len event c =
      rx_success_in-state env s.state event (record s { controller = c }) refl
  raised-Allowed false s status len event c = refl

  timeout-Allowed :
      (listens : Bool) (s : SessionOf env)
      → Allowed listens rx_timeout s.state (if listens then on_rx_timeout env s else s).state
  unfolding on_rx_timeout
  timeout-Allowed true s = rx_timeout_in-state env s.state s refl
  timeout-Allowed false s = refl

  error-Allowed :
      (listens : Bool) (s : SessionOf env)
      → Allowed listens rx_error s.state (if listens then on_rx_error env s else s).state
  unfolding on_rx_error
  error-Allowed true s = rx_error_in-state env s.state s refl
  error-Allowed false s = refl

  done-Allowed :
      (listens : Bool) (s : SessionOf env)
      → Allowed listens tx_done s.state (if listens then on_tx_complete env s else s).state
  unfolding on_tx_complete
  done-Allowed true s = tx_complete_in-state env s.state s refl
  done-Allowed false s = refl

  -- Each callback of the driver moves the session as the machine allows: the legs follow one another
  -- in their order, a leg that fails leads back to listening, and so does each timeout and error in
  -- an exchange; a session that is not started, stopped or suspended stays so, and without a listener
  -- nothing moves.
  pub react-Allowed :
      (e : Event) (s : SessionOf env)
      → Allowed s.controller.has_listener e s.state (react env e s).state
  unfolding react driver_rx_success handle_driver_rx_success driver_rx_timeout driver_rx_error
      driver_tx_done
  react-Allowed (rx_success status len) s =
      raised-Allowed s.controller.has_listener s status len
        (rx_event env.platform status len s.controller)
        (read_rx_timestamp_dtu env.platform (after_pdoa env.platform status len s.controller)).1
  react-Allowed rx_timeout s = timeout-Allowed s.controller.has_listener s
  react-Allowed rx_error s = error-Allowed s.controller.has_listener s
  react-Allowed tx_done s = done-Allowed s.controller.has_listener s
