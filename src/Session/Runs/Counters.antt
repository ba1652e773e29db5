-- ===== src/Session/Runs/Counters.antt =====
-- What a run of events reports.
use aliro_ccc_core.Base.{
  ◌+◌, ◌≤◌, ◌≡◌, refl, ap, arith, true, ◌⊎◌, inl, inr, Option, none, some, List, [], ◌∷◌, length,
  if-elim,
}
use aliro_ccc_core.Transceiver.Platform.{Controller}
use aliro_ccc_core.Transceiver.Arming.{start_immediate_rx}
use aliro_ccc_core.Transceiver.Events.{RxSuccessEvent, handle_driver_rx_success}
use aliro_ccc_core.Session.State.{
  SessionState, uninitialized, idle, pre_poll_listening, awaiting_poll, transmitting_response,
  awaiting_final, awaiting_final_data, suspended, Environment, SessionOf,
}
use aliro_ccc_core.Session.Exchange.Silent.{
  ledger, arm_pre_poll_listening-ledger, handle_pre_poll_reception-ledger,
  handle_poll_reception-ledger, transmitted-ledger, handle_final_reception-ledger,
}
use aliro_ccc_core.Session.FinalData.Reported.{
  IsQuiet, IsReportedFrom, ledger-IsQuiet, not_replayed,
}
use aliro_ccc_core.Session.FinalData.Outcomes.{handle_final_data_reception_outcome}
use aliro_ccc_core.Session.Listening.{arm_pre_poll_listening}
use aliro_ccc_core.Session.Exchange.{
  handle_pre_poll_reception, handle_poll_reception, handle_final_reception,
}
use aliro_ccc_core.Session.Dispatch.{
  rx_success_in, on_rx_success, rx_timeout_in, on_rx_timeout, rx_error_in, on_rx_error,
  tx_complete_in, on_tx_complete, raised, driver_rx_success, heard, driver_rx_timeout,
  driver_rx_error, driver_tx_done,
}
use aliro_ccc_core.Session.Runs.{Event, rx_success, rx_timeout, rx_error, tx_done, react, react_all}

module _ (env : Environment) where
  abbrev Reports : SessionState → SessionOf env → SessionOf env → Type 0
  Reports at s t = IsQuiet env s t ⊎ ((at ≡ awaiting_final_data) × IsReportedFrom env s t)

  rx_success_in_outcome :
      (at : SessionState) (event : RxSuccessEvent) (s : SessionOf env)
      → Reports at s (rx_success_in env at event s)
  rx_success_in_outcome pre_poll_listening event s = inl (
      ledger-IsQuiet env s (handle_pre_poll_reception env event s)
        (handle_pre_poll_reception-ledger env event s))
  rx_success_in_outcome awaiting_poll event s = inl (
      ledger-IsQuiet env s (handle_poll_reception env event s)
        (handle_poll_reception-ledger env event s))
  rx_success_in_outcome awaiting_final event s = inl (
      ledger-IsQuiet env s (handle_final_reception env event s)
        (handle_final_reception-ledger env event s))
  rx_success_in_outcome awaiting_final_data event s =
      elim (handle_final_data_reception_outcome env s) [ inl q ↦ inl q | inr r ↦ inr (refl, r) ]
  rx_success_in_outcome uninitialized event s = inl (ledger-IsQuiet env s s refl)
  rx_success_in_outcome idle event s = inl (ledger-IsQuiet env s s refl)
  rx_success_in_outcome transmitting_response event s = inl (ledger-IsQuiet env s s refl)
  rx_success_in_outcome suspended event s = inl (ledger-IsQuiet env s s refl)

  -- A reception reports nothing, and the counter of the Final-Data does not fall; or the session
  -- awaited the Final-Data, and the frame that was read is one that is not replayed, opens under the
  -- keys of the awaited Poll slot, names the session and the exchange's Final slot and has a record of
  -- this responder: then one result is reported, with the distance of the record and the local
  -- timestamps, and the frame's counter is remembered.
  pub on_rx_success_reports :
      (event : RxSuccessEvent) (s : SessionOf env)
      → IsQuiet env s (on_rx_success env event s)
        ⊎ ((s.state ≡ awaiting_final_data) × IsReportedFrom env s (on_rx_success env event s))
  unfolding on_rx_success
  on_rx_success_reports event s = rx_success_in_outcome s.state event s

  -- Once a counter is there, each result takes one.
  abbrev pub Spends : SessionOf env → SessionOf env → Type 0
  Spends s t =
      s.has_received_final_data_counter ≡ true
      → (t.has_received_final_data_counter ≡ true)
        × (length t.results + s.last_final_data_counter
            ≤ length s.results + t.last_final_data_counter)

  quiet-Spends : (s t : SessionOf env) → IsQuiet env s t → Spends s t
  quiet-Spends s t q has = elim q.kept_counter [
    | inl none_yet ↦ cc (none_yet, has)
    | inr (has', grows) ↦ (has', omega (arith, ap length q.results, grows))
  ]

  reported-Spends : (s t : SessionOf env) → IsReportedFrom env s t → Spends s t
  reported-Spends s t r has =
      let held : SessionOf env = record s {
        rx_frame_buffer = r.buffer;
        controller = r.controller;
      } in
      (
        ap (λ l. l.has_counter) r.reported.next,
        omega (
          arith,
          ap (λ l. length l.results) r.reported.next,
          ap (λ l. l.last_counter) r.reported.next,
          not_replayed env held r.reported.header r.reported.fresh has,
        ),
      )

  -- What one event of the driver does: nothing is reported, or one distance from a frame that the
  -- controller read after the driver's call changed it.
  abbrev pub Outcome : SessionOf env → SessionOf env → Type 0
  Outcome s t =
      IsQuiet env s t ⊎ ((c : Controller) × IsReportedFrom env (record s { controller = c }) t)

  same : (s t : SessionOf env) → ledger t ≡ ledger s → Outcome s t
  same s t e = inl (ledger-IsQuiet env s t e)

  raised-Outcome :
      (s : SessionOf env) (r : Option RxSuccessEvent × Controller) → Outcome s (raised env s r)
  raised-Outcome s (none, c) = same s (record s { controller = c }) refl
  raised-Outcome s (some event, c) =
      elim (on_rx_success_reports event (record s { controller = c })) [
        | inl q ↦ inl (record {
          results = q.results;
          callback = q.callback;
          filter_kept = q.filter_kept;
          kept_counter = q.kept_counter;
        })
        | inr r ↦ inr (c, r.1)
      ]

  armed-Outcome : (s : SessionOf env) → Outcome s (arm_pre_poll_listening env s)
  armed-Outcome s = same s (arm_pre_poll_listening env s) (arm_pre_poll_listening-ledger env s)

  rx_timeout_in-Outcome :
      (at : SessionState) (s : SessionOf env) → Outcome s (rx_timeout_in env at s)
  rx_timeout_in-Outcome idle s = same s s refl
  rx_timeout_in-Outcome uninitialized s = same s s refl
  rx_timeout_in-Outcome suspended s = same s s refl
  rx_timeout_in-Outcome pre_poll_listening s =
      same s (record s { controller = (start_immediate_rx env.platform 0 s.controller).1 }) refl
  rx_timeout_in-Outcome _ s = armed-Outcome s

  rx_error_in-Outcome : (at : SessionState) (s : SessionOf env) → Outcome s (rx_error_in env at s)
  rx_error_in-Outcome idle s = same s s refl
  rx_error_in-Outcome uninitialized s = same s s refl
  rx_error_in-Outcome suspended s = same s s refl
  rx_error_in-Outcome _ s = armed-Outcome s

  tx_complete_in-Outcome :
      (at : SessionState) (s : SessionOf env) → Outcome s (tx_complete_in env at s)
  tx_complete_in-Outcome transmitting_response s =
      same s (tx_complete_in env transmitting_response s) (transmitted-ledger env s)
  tx_complete_in-Outcome _ s = same s s refl

  heard-Outcome :
      (handler : SessionOf env → SessionOf env) (s : SessionOf env)
      → Outcome s (handler s)
      → Outcome s (heard env handler s)
  heard-Outcome handler s h =
      if-elim {A = SessionOf env} (Outcome s) s.controller.has_listener (λ e. h)
        (λ e. same s s refl)

  pub react-Outcome : (e : Event) (s : SessionOf env) → Outcome s (react env e s)
  unfolding react driver_rx_success driver_rx_timeout on_rx_timeout driver_rx_error on_rx_error
      driver_tx_done on_tx_complete
  react-Outcome (rx_success status len) s =
      raised-Outcome s (handle_driver_rx_success env.platform status len s.controller)
  react-Outcome rx_timeout s = heard-Outcome (on_rx_timeout env) s (rx_timeout_in-Outcome s.state s)
  react-Outcome rx_error s = heard-Outcome (on_rx_error env) s (rx_error_in-Outcome s.state s)
  react-Outcome tx_done s = heard-Outcome (on_tx_complete env) s (tx_complete_in-Outcome s.state s)

  react-Spends : (e : Event) (s : SessionOf env) → Spends s (react env e s)
  react-Spends e s = elim (react-Outcome e s) [
    | inl q ↦ quiet-Spends s (react env e s) q
    | inr (c, r) ↦ reported-Spends (record s { controller = c }) (react env e s) r
  ]

  -- Once a Final-Data was accepted, any run of the driver's events reports at most as many further
  -- results as the frame counter of the Final-Data grows by.
  pub react_all-Spends :
      (events : List Event) (s : SessionOf env)
      → s.has_received_final_data_counter ≡ true
      → ((react_all env events s).has_received_final_data_counter ≡ true)
        × (length (react_all env events s).results + s.last_final_data_counter
            ≤ length s.results + (react_all env events s).last_final_data_counter)
  unfolding react_all
  react_all-Spends [] s has = (has, omega arith)
  react_all-Spends (e ∷ es) s has =
      let (has', first) = react-Spends e s has in
      let (has'', rest) = react_all-Spends es (react env e s) has' in
      (has'', omega (arith, first, rest))
