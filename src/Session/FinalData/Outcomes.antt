-- ===== src/Session/FinalData/Outcomes.antt =====
-- What `handleFinalDataReception` does on every path: it is quiet or it reports.
use aliro_ccc_core.Base.{
  ℕ, ◌+◌, ◌≡◌, refl, ap, ◌∙◌, ◌≤◌, arith, Bool, true, false, not, ◌⊎◌, inl, inr, Option, some, none,
  length, take, ltb, ◌==◌, ==_iff, Bool-cases, if-elim,
}
use aliro_ccc_core.Base.Words.{Bytes, u32}
use aliro_ccc_core.Base.Int.{ℤ}
use aliro_ccc_core.Core.{Result, ok, err}
use aliro_ccc_core.Crypto.Sp0.{mic_length}
use aliro_ccc_core.Frame.{
  MacHeader, FinalDataPayload, ResponderTimestampReport, decode_header, mac_header_length,
  final_data_message,
}
use aliro_ccc_core.Ranging.Distance.{calculate_distance}
use aliro_ccc_core.Transceiver.Platform.{Controller}
use aliro_ccc_core.Transceiver.Reading.{read_received_data}
use aliro_ccc_core.Session.State.{Environment, SessionOf}
use aliro_ccc_core.Session.Listening.{arm_pre_poll_listening}
use aliro_ccc_core.Session.Exchange.Silent.{ledger, arm_pre_poll_listening-ledger}
use aliro_ccc_core.Session.FinalData.{
  find_report, is_replayed_final, twr_timestamps, report_distance, with_report, with_payload,
  open_final_data, armed_slot_keys, with_final_header, with_final_frame,
  handle_final_data_reception,
}
use aliro_ccc_core.Session.FinalData.Reported.{
  IsReported, IsQuiet, IsReportedFrom, ledger-IsQuiet, not_replayed,
}

not-false : (b : Bool) → not b ≡ false → b ≡ true
not-false true e = refl
not-false false e = cc

module _ (env : Environment) where
  abbrev Outcome : SessionOf env → Bytes → SessionOf env → Type 0
  Outcome s frame t = IsQuiet env s t ⊎ IsReported env s frame t

  quiet : (s : SessionOf env) (frame : Bytes) → Outcome s frame (arm_pre_poll_listening env s)
  quiet s frame =
      inl
        (ledger-IsQuiet env s (arm_pre_poll_listening env s) (arm_pre_poll_listening-ledger env s))

  -- The frame's tests up to its payload.
  module _ (s : SessionOf env) (frame : Bytes) (h : MacHeader)
      (decoded : decode_header frame ≡ ok h) (message : h.message_id ≡ final_data_message)
      (fresh : is_replayed_final env s h ≡ false) where
    abbrev seen : SessionOf env
    seen = record s {
      last_final_data_counter = h.frame_counter;
      has_received_final_data_counter = true;
    }

    counted_counter :
        (t : SessionOf env)
        → t.last_final_data_counter ≡ h.frame_counter
        → t.has_received_final_data_counter ≡ true
        → (s.has_received_final_data_counter ≡ false)
          ⊎ ((t.has_received_final_data_counter ≡ true)
              × (s.last_final_data_counter ≤ t.last_final_data_counter))
    counted_counter t last has' = elim (Bool-cases s.has_received_final_data_counter) [
      | inl has ↦ inr (has', omega (arith, last, not_replayed env s h fresh has))
      | inr none_yet ↦ inl none_yet
    ]

    counted :
        (t : SessionOf env)
        → ledger t ≡ ledger seen
        → Outcome s frame (arm_pre_poll_listening env t)
    counted t e =
        let e' = arm_pre_poll_listening-ledger env t ∙ e in
        inl (record {
          results = ap (λ l. l.results) e';
          callback = ap (λ l. l.has_callback) e';
          filter_kept = inr (ap (λ l. l.filter) e');
          kept_counter =
              counted_counter (arm_pre_poll_listening env t) (ap (λ l. l.last_counter) e')
                (ap (λ l. l.has_counter) e');
        })

    -- Without a callback the distance reaches the filter only.
    unheard :
        (distance : ℤ)
        → s.has_callback ≡ false
        → Outcome s frame (arm_pre_poll_listening env (report_distance env seen (ok distance)))
    unheard distance no_callback =
        let t : SessionOf env = report_distance env seen (ok distance) in
        let e' = arm_pre_poll_listening-ledger env t in
        inl (record {
          results = ap (λ l. l.results) e' ∙ rw no_callback;
          callback = ap (λ l. l.has_callback) e';
          filter_kept = inl no_callback;
          kept_counter =
              counted_counter (arm_pre_poll_listening env t) (ap (λ l. l.last_counter) e')
                (ap (λ l. l.has_counter) e');
        })

    module _ (f : FinalDataPayload)
        (opened : open_final_data env s frame h (armed_slot_keys env s) ≡ ok f)
        (session : f.session_id ≡ s.params.session_id)
        (exchange : f.final_sts_index
          ≡ u32 (s.armed_poll_sts_index + 1 + s.params.responder_count)) where
      measured_outcome :
          (r : ResponderTimestampReport) (d : Result ℤ)
          → find_report s.node_config.responder_index f.responder_reports ≡ some r
          → calculate_distance (twr_timestamps env s f r) s.node_config.antenna_delay_bias ≡ d
          → Outcome s frame (arm_pre_poll_listening env (report_distance env seen d))
      measured_outcome r (err e) found measured = counted seen refl
      measured_outcome r (ok distance) found measured = elim (Bool-cases s.has_callback) [
        | inl yes_callback ↦ inr (record {
          header = h;
          payload = f;
          report = r;
          distance = distance;
          decoded = decoded;
          message = message;
          fresh = fresh;
          opened = opened;
          session = session;
          exchange = exchange;
          found = found;
          measured = measured;
          wanted = yes_callback;
          next =
              arm_pre_poll_listening-ledger env (report_distance env seen (ok distance))
              ∙ rw yes_callback;
        })
        | inr no_callback ↦ unheard distance no_callback
      ]

      found_outcome :
          (r : Option ResponderTimestampReport)
          → find_report s.node_config.responder_index f.responder_reports ≡ r
          → Outcome s frame (arm_pre_poll_listening env (with_report env seen f r))
      found_outcome none found = counted seen refl
      found_outcome (some r) found =
          measured_outcome r
            (calculate_distance (twr_timestamps env s f r) s.node_config.antenna_delay_bias) found
            refl

    payload_outcome :
        (p : Result FinalDataPayload)
        → open_final_data env s frame h (armed_slot_keys env s) ≡ p
        → Outcome s frame (with_payload env s h p)
    payload_outcome (err e) opened = quiet s frame
    payload_outcome (ok f) opened =
        if-elim {A = SessionOf env} (Outcome s frame) (not (f.session_id == s.params.session_id))
          (λ e. quiet s frame)
          (λ e1.
            if-elim {A = SessionOf env} (Outcome s frame)
              (not
                (f.final_sts_index == u32 (s.armed_poll_sts_index + 1 + s.params.responder_count)))
              (λ e. counted seen refl)
              (λ e2.
                found_outcome f opened ((==_iff _ _).0 (not-false _ e1))
                  ((==_iff _ _).0 (not-false _ e2))
                  (find_report s.node_config.responder_index f.responder_reports) refl))

  header_outcome :
      (s : SessionOf env) (frame : Bytes) (r : Result MacHeader)
      → decode_header frame ≡ r
      → Outcome s frame (with_final_header env s frame r)
  header_outcome s frame (err e) decoded = quiet s frame
  header_outcome s frame (ok h) decoded =
      if-elim {A = SessionOf env} (Outcome s frame) (not (h.message_id == final_data_message))
        (λ e. quiet s frame)
        (λ e1.
          if-elim {A = SessionOf env} (Outcome s frame) (is_replayed_final env s h)
            (λ e. quiet s frame)
            (λ fresh.
              if-elim {A = SessionOf env} (Outcome s frame)
                (ltb (length frame) (mac_header_length + (h.payload_length + mic_length)))
                (λ e. quiet s frame)
                (λ e2.
                  payload_outcome s frame h decoded ((==_iff _ _).0 (not-false _ e1)) fresh
                    (open_final_data env s frame h (armed_slot_keys env s)) refl)))

  frame_outcome :
      (s : SessionOf env) (r : Result ℕ × Bytes × Controller)
      → read_received_data env.platform s.rx_frame_buffer 0 s.controller ≡ r
      → IsQuiet env s (with_final_frame env s r) ⊎ IsReportedFrom env s (with_final_frame env s r)
  frame_outcome s (err e, buffer, c) received =
      let s' : SessionOf env = record s { rx_frame_buffer = buffer; controller = c } in
      inl (
        ledger-IsQuiet env s (arm_pre_poll_listening env s') (arm_pre_poll_listening-ledger env s'))
  frame_outcome s (ok n, buffer, c) received =
      let s' : SessionOf env = record s { rx_frame_buffer = buffer; controller = c } in
      if-elim {A = SessionOf env} (λ t. IsQuiet env s t ⊎ IsReportedFrom env s t)
        (ltb n mac_header_length)
        (λ e. inl (
          ledger-IsQuiet env s (arm_pre_poll_listening env s')
            (arm_pre_poll_listening-ledger env s')))
        (λ e. elim (header_outcome s' (take n buffer) (decode_header (take n buffer)) refl) [
          | inl q ↦ inl (record {
            results = q.results;
            callback = q.callback;
            filter_kept = q.filter_kept;
            kept_counter = q.kept_counter;
          })
          | inr r ↦ inr (record {
            read_length = n;
            buffer = buffer;
            controller = c;
            received = received;
            reported = r;
          })
        ])

  pub handle_final_data_reception_outcome :
      (s : SessionOf env)
      → IsQuiet env s (handle_final_data_reception env s)
        ⊎ IsReportedFrom env s (handle_final_data_reception env s)
  unfolding handle_final_data_reception
  handle_final_data_reception_outcome s =
      frame_outcome s (read_received_data env.platform s.rx_frame_buffer 0 s.controller) refl
