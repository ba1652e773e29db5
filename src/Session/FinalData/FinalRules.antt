-- ===== src/Session/FinalData/FinalRules.antt =====
-- A rule for what holds after a Final-Data: whatever it says, the session listens again, with the keys
-- that were derived ahead as they were.
use aliro_ccc_core.Base.{ℕ, ◌+◌, true, not, Option, none, some, length, take, ltb, ◌==◌, if-elim}
use aliro_ccc_core.Base.Words.{Bytes, u32}
use aliro_ccc_core.Base.Int.{ℤ}
use aliro_ccc_core.Core.{Result, ok, err}
use aliro_ccc_core.Crypto.Sp0.{mic_length}
use aliro_ccc_core.Frame.{
  MacHeader, FinalDataPayload, ResponderTimestampReport, decode_header, mac_header_length,
  final_data_message,
}
use aliro_ccc_core.Ranging.Distance.{calculate_distance}
use aliro_ccc_core.Transceiver.Platform.{Controller}
use aliro_ccc_core.Transceiver.Reading.{read_received_data}
use aliro_ccc_core.Session.State.{Environment, SessionOf}
use aliro_ccc_core.Session.Listening.{arm_pre_poll_listening}
use aliro_ccc_core.Session.Exchange.Rules.{Warmth, warmth}
use aliro_ccc_core.Session.FinalData.{
  find_report, is_replayed_final, twr_timestamps, report_distance, with_report, with_payload,
  open_final_data, armed_slot_keys, with_final_header, with_final_frame,
  handle_final_data_reception,
}

module _ (env : Environment) (Q : Warmth → Type 0) (P : SessionOf env → Type 0)
    (listens : (t : SessionOf env) → Q (warmth t) → P (arm_pre_poll_listening env t)) where
  report_distance_rule :
      (s : SessionOf env) (d : Result ℤ) → Q (warmth s) → Q (warmth (report_distance env s d))
  report_distance_rule s (err e) w = w
  report_distance_rule s (ok d) w = w

  with_report_rule :
      (s : SessionOf env) (f : FinalDataPayload) (r : Option ResponderTimestampReport)
      → Q (warmth s)
      → Q (warmth (with_report env s f r))
  with_report_rule s f none w = w
  with_report_rule s f (some r) w =
      report_distance_rule s
        (calculate_distance (twr_timestamps env s f r) s.node_config.antenna_delay_bias) w

  with_payload_rule :
      (s : SessionOf env) (h : MacHeader) (p : Result FinalDataPayload)
      → Q (warmth s)
      → P (with_payload env s h p)
  with_payload_rule s h (err e) w = listens s w
  with_payload_rule s h (ok f) w =
      let seen : SessionOf env = record s {
        last_final_data_counter = h.frame_counter;
        has_received_final_data_counter = true;
      } in
      let r = find_report s.node_config.responder_index f.responder_reports in
      if-elim {A = SessionOf env} P (not (f.session_id == s.params.session_id)) (λ e. listens s w)
        (λ e.
          if-elim {A = SessionOf env} P
            (not (f.final_sts_index == u32 (s.armed_poll_sts_index + 1 + s.params.responder_count)))
            (λ e. listens seen w)
            (λ e. listens (with_report env seen f r) (with_report_rule seen f r w)))

  with_final_header_rule :
      (s : SessionOf env) (frame : Bytes) (r : Result MacHeader)
      → Q (warmth s)
      → P (with_final_header env s frame r)
  with_final_header_rule s frame (err e) w = listens s w
  with_final_header_rule s frame (ok h) w =
      let refused = listens s w in
      if-elim {A = SessionOf env} P (not (h.message_id == final_data_message)) (λ e. refused)
        (λ e.
          if-elim {A = SessionOf env} P (is_replayed_final env s h) (λ e. refused)
            (λ e.
              if-elim {A = SessionOf env} P
                (ltb (length frame) (mac_header_length + (h.payload_length + mic_length)))
                (λ e. refused)
                (λ e.
                  with_payload_rule s h (open_final_data env s frame h (armed_slot_keys env s)) w)))

  with_final_frame_rule :
      (s : SessionOf env) (r : Result ℕ × Bytes × Controller)
      → Q (warmth s)
      → P (with_final_frame env s r)
  with_final_frame_rule s (err e, buffer, c) w =
      listens (record s { rx_frame_buffer = buffer; controller = c }) w
  with_final_frame_rule s (ok n, buffer, c) w =
      let s' : SessionOf env = record s { rx_frame_buffer = buffer; controller = c } in
      if-elim {A = SessionOf env} P (ltb n mac_header_length) (λ e. listens s' w)
        (λ e. with_final_header_rule s' (take n buffer) (decode_header (take n buffer)) w)

  pub handle_final_data_reception_rule :
      (s : SessionOf env) → Q (warmth s) → P (handle_final_data_reception env s)
  unfolding handle_final_data_reception
  handle_final_data_reception_rule s w =
      with_final_frame_rule s (read_received_data env.platform s.rx_frame_buffer 0 s.controller) w
