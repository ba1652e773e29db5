-- ===== src/Session/FinalData/Accepting.antt =====
-- A genuine Final-Data is reported: the session after the codec and the SP0 engine.
use aliro_ccc_core.Base.{
  ◌+◌, ◌≤◌, ◌≡◌, ap, ◌∙◌, true, false, some, ◌∷◌, arith, length, take, if◌then◌else◌, le→ltb,
}
use aliro_ccc_core.Base.Words.{Bytes, u32}
use aliro_ccc_core.Base.Int.{ℤ}
use aliro_ccc_core.Core.{ok}
use aliro_ccc_core.Crypto.Kdf.{SlotCryptoMaterial}
use aliro_ccc_core.Crypto.Sp0.{mic_length}
use aliro_ccc_core.Frame.{
  MacHeader, FinalDataPayload, ResponderTimestampReport, decode_header, mac_header_length,
}
use aliro_ccc_core.Ranging.Distance.{calculate_distance}
use aliro_ccc_core.Transceiver.Platform.{Controller}
use aliro_ccc_core.Transceiver.Reading.{read_received_data}
use aliro_ccc_core.Transceiver.Events.{RxSuccessEvent}
use aliro_ccc_core.Session.FinalData.{
  find_report, is_replayed_final, twr_timestamps, ranging_result, report_distance, with_report,
  with_payload, open_final_data, armed_slot_keys, with_final_header, with_final_frame,
  handle_final_data_reception,
}
use aliro_ccc_core.Session.Listening.{arm_pre_poll_listening}
use aliro_ccc_core.Session.State.{awaiting_final_data, Environment, SessionOf}
use aliro_ccc_core.Session.FinalData.Genuine.{IsGenuineFinalData, decrypts}
use aliro_ccc_core.Base.{if-false, not-==}
use aliro_ccc_core.Session.SentFrames.{length-frame, decodes}
use aliro_ccc_core.Frame.{encode_final_data}
use aliro_ccc_core.Session.Exchange.Silent.{arm_pre_poll_listening-ledger}
use aliro_ccc_core.Session.Listening.Kept.{arm_pre_poll_listening-kept}
use aliro_ccc_core.Session.State.{pre_poll_listening}
use aliro_ccc_core.Session.Dispatch.{rx_success_in, on_rx_success}

-- The session holds the frame and awaits a Final-Data under the keys of the Poll slot.
module _ (env : Environment) (s : SessionOf env) (keys : SlotCryptoMaterial) (h : MacHeader)
    (f : FinalDataPayload) (frame : Bytes) (r : ResponderTimestampReport) (distance : ℤ)
    (armed : armed_slot_keys env s ≡ ok keys)
    (g : IsGenuineFinalData env.crypto keys.dudsk_key s.addresses.source_long h f frame)
    (fresh : is_replayed_final env s h ≡ false) (session : f.session_id ≡ s.params.session_id)
    (exchange : f.final_sts_index ≡ u32 (s.armed_poll_sts_index + 1 + s.params.responder_count))
    (found : find_report s.node_config.responder_index f.responder_reports ≡ some r)
    (measured : calculate_distance (twr_timestamps env s f r) s.node_config.antenna_delay_bias
      ≡ ok distance) where
  abbrev seen : SessionOf env
  seen = record s {
    last_final_data_counter = h.frame_counter;
    has_received_final_data_counter = true;
  }

  opens : open_final_data env s frame h (armed_slot_keys env s) ≡ ok f
  opens =
      ap (open_final_data env s frame h) armed
      ∙ decrypts env keys.dudsk_key s.addresses.source_long h f frame g

  reports :
      with_report env seen f (find_report s.node_config.responder_index f.responder_reports)
      ≡ report_distance env seen (ok distance)
  reports = ap (with_report env seen f) found ∙ ap (report_distance env seen) measured

  accepts_payload :
      with_payload env s h (ok f)
      ≡ arm_pre_poll_listening env (report_distance env seen (ok distance))
  accepts_payload =
      if-false {A = SessionOf env} (arm_pre_poll_listening env s) _
        (not-== f.session_id s.params.session_id session)
      ∙ if-false {A = SessionOf env} (arm_pre_poll_listening env seen) _ (not-== _ _ exchange)
      ∙ ap (arm_pre_poll_listening env) reports

  accepts :
      with_final_header env s frame (decode_header frame)
      ≡ arm_pre_poll_listening env (report_distance env seen (ok distance))
  accepts =
      ap (with_final_header env s frame) (
        decodes env.crypto keys.dudsk_key s.addresses.source_long h (encode_final_data f g.buffer).1
          frame g.sent)
      ∙ if-false {A = SessionOf env} (arm_pre_poll_listening env s) _ (not-== _ _ g.message)
      ∙ if-false {A = SessionOf env} (arm_pre_poll_listening env s) _ fresh
      ∙ if-false {A = SessionOf env} (arm_pre_poll_listening env s) _ (
          le→ltb (length frame) (mac_header_length + (h.payload_length + mic_length)) (
            omega (
              arith,
              length-frame env.crypto keys.dudsk_key s.addresses.source_long h
                  (encode_final_data f g.buffer).1 frame g.sent,
            )))
      ∙ ap (with_payload env s h) opens
      ∙ accepts_payload

module _ (env : Environment) (event : RxSuccessEvent) (s : SessionOf env) (buffer : Bytes)
    (c : Controller) where
  abbrev held : SessionOf env
  held = record s { rx_frame_buffer = buffer; controller = c }

  reads :
      (frame : Bytes)
      → read_received_data env.platform s.rx_frame_buffer 0 s.controller
        ≡ (ok (length frame), buffer, c)
      → take (length frame) buffer ≡ frame
      → 23 ≤ length frame
      → s.state ≡ awaiting_final_data
      → on_rx_success env event s ≡ with_final_header env held frame (decode_header frame)
  unfolding on_rx_success handle_final_data_reception
  reads frame received holds long at =
      ap (λ a. rx_success_in env a event s) at
      ∙ ap (with_final_frame env s) received
      ∙ if-false {A = SessionOf env} (arm_pre_poll_listening env held) _
          (le→ltb (length frame) mac_header_length long)
      ∙ ap (λ (t : Bytes). with_final_header env held t (decode_header t)) holds

  -- A session with a callback awaits the Final-Data, and the driver hands it a genuine one: sealed
  -- under the key of the awaited Poll slot and the address of the initiator, with a counter that is
  -- not replayed, for the session and the exchange, with a record of this responder from which a
  -- distance is calculated. Then it listens again, it has called the callback once, with that
  -- distance, and it remembers the counter.
  pub genuine_final_data_reports :
      (keys : SlotCryptoMaterial) (h : MacHeader) (f : FinalDataPayload) (frame : Bytes)
      (r : ResponderTimestampReport) (distance : ℤ)
      → s.state ≡ awaiting_final_data
      → s.has_callback ≡ true
      → read_received_data env.platform s.rx_frame_buffer 0 s.controller
        ≡ (ok (length frame), buffer, c)
      → take (length frame) buffer ≡ frame
      → armed_slot_keys env s ≡ ok keys
      → IsGenuineFinalData env.crypto keys.dudsk_key s.addresses.source_long h f frame
      → is_replayed_final env s h ≡ false
      → f.session_id ≡ s.params.session_id
      → f.final_sts_index ≡ u32 (s.armed_poll_sts_index + 1 + s.params.responder_count)
      → find_report s.node_config.responder_index f.responder_reports ≡ some r
      → calculate_distance (twr_timestamps env s f r) s.node_config.antenna_delay_bias ≡ ok distance
      → ((on_rx_success env event s).state ≡ pre_poll_listening)
        × ((on_rx_success env event s).results ≡ ranging_result env held distance ∷ s.results)
        × ((on_rx_success env event s).last_final_data_counter ≡ h.frame_counter)
  genuine_final_data_reports keys h f frame r distance at wanted received holds armed g fresh
        session exchange found measured =
      let last : SessionOf env =
        report_distance env
          (record held {
            last_final_data_counter = h.frame_counter;
            has_received_final_data_counter = true;
          })
          (ok distance) in
      let long : 23 ≤ length frame = omega (
        arith,
        length-frame env.crypto keys.dudsk_key s.addresses.source_long h
            (encode_final_data f g.buffer).1 frame g.sent,
      ) in
      let runs : on_rx_success env event s ≡ arm_pre_poll_listening env last =
        reads frame received holds long at
        ∙ accepts env held keys h f frame r distance armed g fresh session exchange found
            measured in
      (
        ap (λ t. t.state) runs ∙ ap (λ k. k.state) (arm_pre_poll_listening-kept env last),
        ap (λ t. t.results) runs
            ∙ ap (λ l. l.results) (arm_pre_poll_listening-ledger env last)
            ∙ ap (λ b. if b then ranging_result env held distance ∷ s.results else s.results)
                wanted,
        ap (λ t. t.last_final_data_counter) runs
            ∙ ap (λ l. l.last_counter) (arm_pre_poll_listening-ledger env last),
      )
