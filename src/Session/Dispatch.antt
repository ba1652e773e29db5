-- ===== src/Session/Dispatch.antt =====
-- src/session/RangingSession.cpp: the events of the transceiver, by the state that they meet; and the
-- driver's callbacks of src/transceiver/DW3000Controller.cpp, which raise them.
use aliro_ccc_core.Base.{ℕ, Option, none, some, if◌then◌else◌}
use aliro_ccc_core.Transceiver.Platform.{Controller}
use aliro_ccc_core.Transceiver.Arming.{start_immediate_rx}
use aliro_ccc_core.Transceiver.Events.{RxSuccessEvent, handle_driver_rx_success}
use aliro_ccc_core.Session.State.{
  SessionState, uninitialized, idle, pre_poll_listening, awaiting_poll, transmitting_response,
  awaiting_final, awaiting_final_data, suspended, Environment, SessionOf,
}
use aliro_ccc_core.Session.Listening.{arm_pre_poll_listening}
use aliro_ccc_core.Session.Exchange.{
  handle_pre_poll_reception, handle_poll_reception, transmitted, handle_final_reception,
}
use aliro_ccc_core.Session.FinalData.{handle_final_data_reception}

module _ (env : Environment) where
  abbrev pub rx_success_in : SessionState → RxSuccessEvent → SessionOf env → SessionOf env
  rx_success_in pre_poll_listening event s = handle_pre_poll_reception env event s
  rx_success_in awaiting_poll event s = handle_poll_reception env event s
  rx_success_in awaiting_final event s = handle_final_reception env event s
  rx_success_in awaiting_final_data event s = handle_final_data_reception env s
  rx_success_in _ event s = s

  unfoldable pub on_rx_success : RxSuccessEvent → SessionOf env → SessionOf env
  unfolding handle_pre_poll_reception handle_poll_reception handle_final_reception
      handle_final_data_reception
  on_rx_success event s = rx_success_in s.state event s

  abbrev pub rx_timeout_in : SessionState → SessionOf env → SessionOf env
  rx_timeout_in idle s = s
  rx_timeout_in uninitialized s = s
  rx_timeout_in suspended s = s
  rx_timeout_in pre_poll_listening s = record s {
    controller = (start_immediate_rx env.platform 0 s.controller).1;
  }
  rx_timeout_in _ s = arm_pre_poll_listening env s

  unfoldable pub on_rx_timeout : SessionOf env → SessionOf env
  unfolding arm_pre_poll_listening
  on_rx_timeout s = rx_timeout_in s.state s

  abbrev pub rx_error_in : SessionState → SessionOf env → SessionOf env
  rx_error_in idle s = s
  rx_error_in uninitialized s = s
  rx_error_in suspended s = s
  rx_error_in _ s = arm_pre_poll_listening env s

  -- The status of the error is only logged.
  unfoldable pub on_rx_error : SessionOf env → SessionOf env
  unfolding arm_pre_poll_listening
  on_rx_error s = rx_error_in s.state s

  abbrev pub tx_complete_in : SessionState → SessionOf env → SessionOf env
  tx_complete_in transmitting_response s = transmitted env s
  tx_complete_in _ s = s

  unfoldable pub on_tx_complete : SessionOf env → SessionOf env
  unfolding transmitted
  on_tx_complete s = tx_complete_in s.state s

  abbrev pub raised : SessionOf env → Option RxSuccessEvent × Controller → SessionOf env
  raised s (none, c) = record s { controller = c }
  raised s (some event, c) = on_rx_success event (record s { controller = c })

  -- `handleDriverRxSuccess` and the other callbacks, with the session as the listener.
  unfoldable pub driver_rx_success : ℕ → ℕ → SessionOf env → SessionOf env
  unfolding on_rx_success
  driver_rx_success status len s =
      raised s (handle_driver_rx_success env.platform status len s.controller)

  abbrev pub heard : (SessionOf env → SessionOf env) → SessionOf env → SessionOf env
  heard handler s = if s.controller.has_listener then handler s else s

  unfoldable pub driver_rx_timeout : SessionOf env → SessionOf env
  unfolding on_rx_timeout
  driver_rx_timeout = heard on_rx_timeout

  unfoldable pub driver_rx_error : SessionOf env → SessionOf env
  unfolding on_rx_error
  driver_rx_error = heard on_rx_error

  unfoldable pub driver_tx_done : SessionOf env → SessionOf env
  unfolding on_tx_complete
  driver_tx_done = heard on_tx_complete
