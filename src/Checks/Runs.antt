-- ===== src/Checks/Runs.antt =====
-- Runs of a session: an exchange over the toy cipher, from a Pre-Poll to a distance.
use aliro_ccc_core.Base.{
  ◌+◌, ◌≤◌, ◌≡◌, ◌⊎◌, refl, arith, true, [], ◌∷◌, replicate, length, map, bytes_eq,
}
use aliro_ccc_core.Base.Words.{of_le16, of_le24, of_le32}
use aliro_ccc_core.Base.Int.{ℤ, pos, wrap32, wrap64, quot, ◌+ℤ◌, ◌-ℤ◌, ◌*ℤ◌}
use aliro_ccc_core.Core.{ok, err, invalid_state}
use aliro_ccc_core.Frame.{decode_header, decode_final_data, decode_pre_poll}
use aliro_ccc_core.Crypto.Sp0.{decrypt_payload}
use aliro_ccc_core.Transceiver.Reading.{read_received_data}
use aliro_ccc_core.Session.PrePoll.{header_ok, decode_pre_poll_frame}
use aliro_ccc_core.Session.State.{
  pre_poll_listening, awaiting_poll, transmitting_response, awaiting_final, awaiting_final_data,
  suspended, Session,
}
use aliro_ccc_core.Session.Dispatch.{on_rx_success, on_tx_complete}
use aliro_ccc_core.Session.Control.{is_suspended, start, suspend, resume_with_anchor}
use aliro_ccc_core.Session.Control.Starting.{Begins, start-Begins, resume_with_anchor-Begins}
use aliro_ccc_core.Session.Exchange.Keyed.{IsKeyed}
use aliro_ccc_core.Session.FinalData.Reported.{IsQuiet, IsReportedFrom}
use aliro_ccc_core.Session.Runs.{
  rx_success, rx_timeout, react, react_all, on_event, on_suspend, here, next,
}
use aliro_ccc_core.Session.Runs.Keys.{Reach-IsKeyed}
use aliro_ccc_core.Session.Runs.Trust.{HasHistory, react_all-HasHistory}
use aliro_ccc_core.Session.Runs.Counters.{on_rx_success_reports, react_all-Spends}
use aliro_ccc_core.Session.Runs.Transitions.{Allowed, react-Allowed}
use aliro_ccc_core.Session.Runs.Progress.{exchange_completes}
use aliro_ccc_core.Ranging.Distance.{calculate_distance, calculate_signed_tof_ticks}
use aliro_ccc_core.Session.Cycle.{derive_cycle_keys}
use aliro_ccc_core.Crypto.Kdf.{
  derive_slot_keys, kdf108, derive_mupsk1, derive_mupsk2, derive_mursk, derive_salted_hash,
  derive_addresses,
}
use aliro_ccc_core.Transceiver.Phy.{configure_phy}
use aliro_ccc_core.Session.Schedule.{next_scheduled_exchange, rounds_per_block}
use aliro_ccc_core.Checks.Session.{a_sealed_frame, some_parameters}
use aliro_ccc_core.Checks.Sessions.{
  env_with, fresh_session, listening, a_reception, final_frame, before_final_data,
}

-- Without warm keys the Pre-Poll is opened at once, and the next exchange is warmed up.
after_pre_poll :
    let t = on_rx_success (env_with a_sealed_frame) a_reception listening in
    (t.state ≡ awaiting_poll) × (t.warm_valid ≡ true) × (t.armed_poll_sts_index ≡ 1000)
unfolding on_rx_success read_received_data a_sealed_frame decode_pre_poll_frame decode_header
    header_ok bytes_eq decrypt_payload decode_pre_poll of_le16 of_le24 of_le32 derive_cycle_keys
    derive_slot_keys kdf108 next_scheduled_exchange rounds_per_block
after_pre_poll = (refl, refl, refl)

after_final_data :
    let t = on_rx_success (env_with final_frame) a_reception before_final_data in
    (t.state ≡ pre_poll_listening)
    × (map (λ r. r.distance) t.results ≡ pos 46 ∷ [])
    × (t.last_final_data_counter ≡ 9)
unfolding on_rx_success read_received_data final_frame decode_header decrypt_payload
    decode_final_data of_le16 of_le24 of_le32 derive_slot_keys kdf108 calculate_distance wrap32 ◌+ℤ◌
    quot ◌*ℤ◌ calculate_signed_tof_ticks wrap64 ◌-ℤ◌
after_final_data = (refl, refl, refl)

on_rx_success_reports_example :
    let env = env_with final_frame in
    IsQuiet env before_final_data (on_rx_success env a_reception before_final_data)
    ⊎ ((awaiting_final_data ≡ awaiting_final_data)
        × IsReportedFrom env before_final_data (on_rx_success env a_reception before_final_data))
on_rx_success_reports_example =
    on_rx_success_reports (env_with final_frame) a_reception before_final_data

listening-IsKeyed : IsKeyed (env_with a_sealed_frame) listening
listening-IsKeyed = record { warm = λ v. cc; armed = λ e v. cc }

Reach-IsKeyed_example :
    IsKeyed (env_with a_sealed_frame) (
      suspend
        (env_with a_sealed_frame)
        (react (env_with a_sealed_frame) (rx_success 1 0) listening))
Reach-IsKeyed_example =
    Reach-IsKeyed (env_with a_sealed_frame)
      (next (next here (on_event (rx_success 1 0))) on_suspend) listening-IsKeyed

react-Allowed_example :
    Allowed true
      (rx_success 1 0)
      pre_poll_listening
      (react (env_with a_sealed_frame) (rx_success 1 0) listening).state
react-Allowed_example = react-Allowed (env_with a_sealed_frame) (rx_success 1 0) listening

react_all-Spends_example :
    let t = react_all (env_with final_frame) (rx_success 1 0 ∷ rx_timeout ∷ []) before_final_data in
    (t.has_received_final_data_counter ≡ true)
    × (length t.results + 8 ≤ 0 + t.last_final_data_counter)
react_all-Spends_example =
    react_all-Spends (env_with final_frame) (rx_success 1 0 ∷ rx_timeout ∷ []) before_final_data
      refl

react_all-HasHistory_example :
    HasHistory
      (env_with final_frame)
      []
      (react_all (env_with final_frame) (rx_success 1 0 ∷ rx_timeout ∷ []) before_final_data)
react_all-HasHistory_example =
    react_all-HasHistory (env_with final_frame) (rx_success 1 0 ∷ rx_timeout ∷ []) before_final_data
      refl refl

exchange_completes_example :
    let env = env_with a_sealed_frame in
    let s1 = on_rx_success env a_reception (record listening { warm_valid = true }) in
    let s2 = on_rx_success env a_reception s1 in
    let s3 = on_tx_complete env s2 in
    let s4 = on_rx_success env a_reception s3 in
    (s1.state ≡ awaiting_poll)
    × (s2.state ≡ transmitting_response)
    × (s3.state ≡ awaiting_final)
    × (s4.state ≡ awaiting_final_data)
    × ((on_rx_success env a_reception s4).state ≡ pre_poll_listening)
unfolding read_received_data a_sealed_frame
exchange_completes_example =
    exchange_completes (env_with a_sealed_frame) (record listening { warm_valid = true })
      a_reception a_reception a_reception a_reception refl refl (omega arith) refl refl
      (λ trace. refl)

start-Begins_example :
    let env = env_with [] in
    Begins env fresh_session
      (replicate 32 7)
      some_parameters
      (start env (replicate 32 7) some_parameters fresh_session.node_config true fresh_session)
start-Begins_example =
    start-Begins (env_with []) (replicate 32 7) some_parameters fresh_session.node_config true
      fresh_session refl

-- It succeeds.
start_succeeds :
    (start
      (env_with [])
      (replicate 32 7)
      some_parameters
      fresh_session.node_config
      true
      fresh_session).0
    ≡ ok tt
unfolding start derive_mupsk1 kdf108 derive_mupsk2 derive_mursk derive_salted_hash derive_addresses
    configure_phy
start_succeeds = refl

resume_with_anchor-Begins_example :
    let env = env_with [] in
    let s : Session ℤ = record fresh_session { state = suspended } in
    Begins env s s.ursk (record s.params { sts_index0 = 5 }) (resume_with_anchor env 5 s)
    × ((is_suspended s.state ≡ true) ⊎ ((resume_with_anchor env 5 s).0 ≡ err invalid_state))
resume_with_anchor-Begins_example =
    resume_with_anchor-Begins (env_with []) 5 (record fresh_session { state = suspended })
