-- ===== src/Session/FinalData/Reported.antt =====
-- When a distance is reported.
use aliro_ccc_core.Base.{
  ℕ, ◌+◌, ◌≡◌, ap, ◌∙◌, ◌≤◌, ◌<◌, arith, true, false, ◌⊎◌, inl, inr, some, ◌∷◌, take, Bool-cases,
}
use aliro_ccc_core.Base.Words.{Bytes, u32}
use aliro_ccc_core.Base.Int.{ℤ}
use aliro_ccc_core.Core.{ok}
use aliro_ccc_core.Frame.{
  MacHeader, FinalDataPayload, ResponderTimestampReport, decode_header, final_data_message,
}
use aliro_ccc_core.Ranging.Distance.{calculate_distance}
use aliro_ccc_core.Transceiver.Platform.{Controller}
use aliro_ccc_core.Transceiver.Reading.{read_received_data}
use aliro_ccc_core.Session.State.{Environment, SessionOf}
use aliro_ccc_core.Session.Exchange.Silent.{ledger}
use aliro_ccc_core.Session.FinalData.{
  find_report, filtered, is_replayed_final, twr_timestamps, ranging_result, open_final_data,
  armed_slot_keys,
}

module _ (env : Environment) where
  -- The frame is a Final-Data that is not replayed, opens under the keys of the awaited Poll slot,
  -- names the session and the exchange, and has a record of this responder, from which and from the
  -- local timestamps the distance is calculated; the counter is remembered and the callback called
  -- once.
  pub record IsReported (s : SessionOf env) (frame : Bytes) (t : SessionOf env) : Type 0 where
    pub header : MacHeader
    pub payload : FinalDataPayload
    pub report : ResponderTimestampReport
    pub distance : ℤ
    pub decoded : decode_header frame ≡ ok header
    pub message : header.message_id ≡ final_data_message
    pub fresh : is_replayed_final env s header ≡ false
    pub opened : open_final_data env s frame header (armed_slot_keys env s) ≡ ok payload
    pub session : payload.session_id ≡ s.params.session_id
    pub exchange :
        payload.final_sts_index ≡ u32 (s.armed_poll_sts_index + 1 + s.params.responder_count)
    pub found : find_report s.node_config.responder_index payload.responder_reports ≡ some report
    pub measured :
        calculate_distance (twr_timestamps env s payload report) s.node_config.antenna_delay_bias
        ≡ ok distance
    pub wanted : s.has_callback ≡ true
    pub next : ledger t ≡ record {
      results = ranging_result env s distance ∷ s.results;
      filter = (filtered env s distance).0;
      has_callback = true;
      last_counter = header.frame_counter;
      has_counter = true;
    }

  -- Nothing is reported, the filter is the same if there is a callback, and the counter does not
  -- fall.
  pub record IsQuiet (s t : SessionOf env) : Type 0 where
    pub results : t.results ≡ s.results
    pub callback : t.has_callback ≡ s.has_callback
    pub filter_kept : (s.has_callback ≡ false) ⊎ (t.filter ≡ s.filter)
    pub kept_counter :
        (s.has_received_final_data_counter ≡ false)
        ⊎ ((t.has_received_final_data_counter ≡ true)
            × (s.last_final_data_counter ≤ t.last_final_data_counter))

  -- The frame that was read, as the session holds it.
  pub record IsReportedFrom (s t : SessionOf env) : Type 0 where
    pub read_length : ℕ
    pub buffer : Bytes
    pub controller : Controller
    pub received :
        read_received_data env.platform s.rx_frame_buffer 0 s.controller
        ≡ (ok read_length, buffer, controller)
    pub reported :
        IsReported
          (record s { rx_frame_buffer = buffer; controller = controller })
          (take read_length buffer)
          t

  pub ledger-IsQuiet : (s t : SessionOf env) → ledger t ≡ ledger s → IsQuiet s t
  ledger-IsQuiet s t e = record {
    results = ap (λ l. l.results) e;
    callback = ap (λ l. l.has_callback) e;
    filter_kept = inr (ap (λ l. l.filter) e);
    kept_counter = elim (Bool-cases s.has_received_final_data_counter) [
      | inl has ↦ inr (ap (λ l. l.has_counter) e ∙ has, omega (arith, ap (λ l. l.last_counter) e))
      | inr none_yet ↦ inl none_yet
    ];
  }

  pub not_replayed :
      (s : SessionOf env) (h : MacHeader)
      → is_replayed_final env s h ≡ false
      → s.has_received_final_data_counter ≡ true
      → s.last_final_data_counter < h.frame_counter
  not_replayed s h fresh has = ground arith
