-- ===== src/Session/Runs/Progress.antt =====
-- An exchange runs through.
use aliro_ccc_core.Base.{
  ℕ, ◌+◌, ◌≤◌, ◌≡◌, refl, sym, ap, subst, ◌∙◌, Bool, true, not, ◌&&◌, [], take, le→ltb, if-elim,
}
use aliro_ccc_core.Base.Words.{Bytes}
use aliro_ccc_core.Core.{Result, ok, err}
use aliro_ccc_core.Frame.{MacHeader, decode_header, mac_header_length}
use aliro_ccc_core.Transceiver.Platform.{dwt_start_tx_delayed, start_tx, Trace, Controller}
use aliro_ccc_core.Transceiver.Arming.{start_delayed_tx}
use aliro_ccc_core.Transceiver.Reading.{read_received_data}
use aliro_ccc_core.Transceiver.Events.{RxSuccessEvent}
use aliro_ccc_core.Session.PrePoll.{header_ok, is_stale}
use aliro_ccc_core.Session.State.{
  pre_poll_listening, awaiting_poll, transmitting_response, awaiting_final, awaiting_final_data,
  Environment, SessionOf, keys_of,
}
use aliro_ccc_core.Session.Listening.Kept.{kept}
use aliro_ccc_core.Session.Exchange.{
  lead_time_hi32, resp_ant_delay_hi32, hi32, slot_time, load_leg, await_poll, arm_with, stash,
  check_header, arm_warm, with_frame, handle_pre_poll_reception, responding, handle_poll_reception,
  transmitted,
}
use aliro_ccc_core.Session.Dispatch.{rx_success_in, on_rx_success, tx_complete_in, on_tx_complete}
use aliro_ccc_core.Session.Runs.Machine.{
  handle_final_reception-state, handle_final_data_reception-state,
}

module _ (env : Environment) where
  check_header-kept :
      (s : SessionOf env) (r : Result MacHeader) → kept (check_header env s r) ≡ kept s
  check_header-kept s (err e) = refl
  check_header-kept s (ok h) =
      if-elim {A = SessionOf env} (λ t. kept t ≡ kept s)
        (header_ok (keys_of s) h && not (is_stale s.freshness h)) (λ e. refl) (λ e. refl)

  -- A Pre-Poll's frame opens the Poll window if the keys are warm.
  opens :
      (event : RxSuccessEvent) (s : SessionOf env) {n : ℕ} {buffer : Bytes} {c : Controller}
      → s.state ≡ pre_poll_listening
      → s.warm_valid ≡ true
      → mac_header_length ≤ n
      → read_received_data env.platform s.rx_frame_buffer 0 s.controller ≡ (ok n, buffer, c)
      → ((on_rx_success env event s).state ≡ awaiting_poll)
        × ((on_rx_success env event s).armed_keys_valid ≡ true)
  unfolding on_rx_success handle_pre_poll_reception arm_warm
  opens event s {n} {buffer} {c} here warm long received =
      let time = slot_time s.params (hi32 event.rx_timestamp_dtu) 1 lead_time_hi32 in
      let s' : SessionOf env = record s { rx_frame_buffer = buffer; controller = c } in
      let step : rx_success_in env s.state event s ≡ arm_warm env (take n buffer) time s' =
        ap (λ at. rx_success_in env at event s) here
        ∙ ap (with_frame env time s) received
        ∙ rw (le→ltb n mac_header_length long, warm) in
      let same =
        ap kept step
        ∙ check_header-kept
            (await_poll env time (stash env (take n buffer) (arm_with env s.warm s')))
            (decode_header (take n buffer)) in
      (ap (λ k. k.state) same, ap (λ k. k.armed_keys_valid) same)

  abbrev Answered : SessionOf env → Type 0
  Answered t = (t.state ≡ transmitting_response) × (t.armed_keys_valid ≡ true)

  responding_sent :
      (s : SessionOf env) (r : Result (Unit {0}) × Controller)
      → r.0 ≡ ok tt
      → s.armed_keys_valid ≡ true
      → Answered (responding env s r)
  responding_sent s (ok done, c) e armed = (refl, armed)
  responding_sent s (err code, c) e armed = cc

  start_delayed_tx_succeeds :
      (time : ℕ) (frame : Bytes) (ranging : Bool) (c : Controller)
      → ((trace : Trace) → env.platform.succeeds (start_tx dwt_start_tx_delayed) trace ≡ true)
      → (start_delayed_tx env.platform time frame ranging c).0 ≡ ok tt
  unfolding start_delayed_tx
  start_delayed_tx_succeeds time frame ranging c always = simp always

  -- A Poll is answered if the transmission starts.
  answered :
      (event : RxSuccessEvent) (s : SessionOf env)
      → s.armed_keys_valid ≡ true
      → event.sts_passed ≡ true
      → ((trace : Trace) → env.platform.succeeds (start_tx dwt_start_tx_delayed) trace ≡ true)
      → Answered (handle_poll_reception env event s)
  unfolding handle_poll_reception
  answered event s armed passed always =
      let time =
        slot_time s.params (hi32 event.rx_timestamp_dtu) (1 + s.node_config.responder_index)
          resp_ant_delay_hi32 in
      let loaded = load_leg env s.armed.response s.controller in
      if-elim {A = SessionOf env} Answered (not event.sts_passed) (λ e. cc (e, passed))
        (λ e.
          if-elim {A = SessionOf env} Answered (not s.armed_keys_valid) (λ v. cc (v, armed))
            (λ v.
              responding_sent (record s { poll_rx_timestamp_dtu = event.rx_timestamp_dtu })
                (start_delayed_tx env.platform time [] true loaded)
                (start_delayed_tx_succeeds time [] true loaded always) armed))

  answers :
      (event : RxSuccessEvent) (s : SessionOf env)
      → s.state ≡ awaiting_poll
      → s.armed_keys_valid ≡ true
      → event.sts_passed ≡ true
      → ((trace : Trace) → env.platform.succeeds (start_tx dwt_start_tx_delayed) trace ≡ true)
      → Answered (on_rx_success env event s)
  unfolding on_rx_success
  answers event s here armed passed always =
      subst (λ at. Answered (rx_success_in env at event s)) (sym here)
        (answered event s armed passed always)

  awaits_final :
      (s : SessionOf env)
      → s.state ≡ transmitting_response
      → s.armed_keys_valid ≡ true
      → (on_tx_complete env s).state ≡ awaiting_final
  unfolding on_tx_complete transmitted
  awaits_final s here armed =
      subst (λ at. (tx_complete_in env at s).state ≡ awaiting_final) (sym here)
        (if-elim {A = SessionOf env} (λ t. t.state ≡ awaiting_final) (not s.armed_keys_valid)
          (λ v. cc (v, armed)) (λ v. refl))

  awaits_final_data :
      (event : RxSuccessEvent) (s : SessionOf env)
      → s.state ≡ awaiting_final
      → (on_rx_success env event s).state ≡ awaiting_final_data
  unfolding on_rx_success
  awaits_final_data event s here =
      subst (λ at. (rx_success_in env at event s).state ≡ awaiting_final_data) (sym here)
        (handle_final_reception-state env event s)

  listens_again :
      (event : RxSuccessEvent) (s : SessionOf env)
      → s.state ≡ awaiting_final_data
      → (on_rx_success env event s).state ≡ pre_poll_listening
  unfolding on_rx_success
  listens_again event s here =
      subst (λ at. (rx_success_in env at event s).state ≡ pre_poll_listening) (sym here)
        (handle_final_data_reception-state env s)

  -- With warm keys, a Pre-Poll's frame that holds a header, a Poll with a good STS, the end of the
  -- response's transmission, a Final and a Final-Data take a listening session through all legs of an
  -- exchange and back to listening, whatever the frames say and whatever the driver answers to the
  -- arming of a window, if only it starts the transmission.
  pub exchange_completes :
      (s : SessionOf env) (pre_poll poll final final_data : RxSuccessEvent) {n : ℕ} {buffer : Bytes}
      {c : Controller}
      → s.state ≡ pre_poll_listening
      → s.warm_valid ≡ true
      → mac_header_length ≤ n
      → read_received_data env.platform s.rx_frame_buffer 0 s.controller ≡ (ok n, buffer, c)
      → poll.sts_passed ≡ true
      → ((trace : Trace) → env.platform.succeeds (start_tx dwt_start_tx_delayed) trace ≡ true)
      → let s1 = on_rx_success env pre_poll s in
        let s2 = on_rx_success env poll s1 in
        let s3 = on_tx_complete env s2 in
        let s4 = on_rx_success env final s3 in
        (s1.state ≡ awaiting_poll)
        × (s2.state ≡ transmitting_response)
        × (s3.state ≡ awaiting_final)
        × (s4.state ≡ awaiting_final_data)
        × ((on_rx_success env final_data s4).state ≡ pre_poll_listening)
  exchange_completes s pre_poll poll final final_data here warm long received passed always =
      let s1 = on_rx_success env pre_poll s in
      let s2 = on_rx_success env poll s1 in
      let s3 = on_tx_complete env s2 in
      let s4 = on_rx_success env final s3 in
      let (at1, armed1) = opens pre_poll s here warm long received in
      let (at2, armed2) = answers poll s1 at1 armed1 passed always in
      let at3 = awaits_final s2 at2 armed2 in
      let at4 = awaits_final_data final s3 at3 in
      (at1, at2, at3, at4, listens_again final_data s4 at4)
