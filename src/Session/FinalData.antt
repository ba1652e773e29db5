-- ===== src/Session/FinalData.antt =====
-- src/session/RangingSession.cpp, `handleFinalDataReception`: the distance of an exchange.
pub mod Reported
pub mod Outcomes
pub mod Genuine
pub mod Accepting
pub mod FinalRules
use aliro_ccc_core.Base.{
  ℕ, ◌+◌, Bool, true, false, not, ◌&&◌, ◌||◌, Option, none, some, List, [], ◌∷◌, length, take, drop,
  replicate, leb, ltb, ◌==◌, if◌then◌else◌,
}
use aliro_ccc_core.Base.Words.{Bytes, u32, sub_u32, sub_u64}
use aliro_ccc_core.Base.Int.{ℤ, pos, negsuc}
use aliro_ccc_core.Core.{Result, ok, err}
use aliro_ccc_core.Crypto.Kdf.{SlotCryptoMaterial}
use aliro_ccc_core.Crypto.Sp0.{decrypt_payload, mic_length}
use aliro_ccc_core.Frame.{
  MacHeader, FinalDataPayload, ResponderTimestampReport, decode_header, decode_final_data,
  mac_header_length, final_data_message,
}
use aliro_ccc_core.Ranging.Distance.{DoubleSidedTwrTimestamps, calculate_distance}
use aliro_ccc_core.Ranging.Consensus.{RangeConsensusFilter, RangeIntegrityReport, ingest}
use aliro_ccc_core.Ranging.Nlos.{NlosVerdict, evaluate}
use aliro_ccc_core.Ranging.Stability.{AoaStabilityDetector, AoaStabilityVerdict, ingest_angle}
use aliro_ccc_core.Ranging.Aoa.{AoAEstimate, from_pdoa}
use aliro_ccc_core.Transceiver.Platform.{Controller}
use aliro_ccc_core.Transceiver.Reading.{read_received_data}
use aliro_ccc_core.Session.Cycle.{slot_keys, final_index}
use aliro_ccc_core.Session.Schedule.{scheduled_round_for}
use aliro_ccc_core.Session.State.{RangingResult, Environment, Session, SessionOf}
use aliro_ccc_core.Session.Listening.{arm_pre_poll_listening}

-- The first report of the responder, or none.
abbrev pub find_report : ℕ → List ResponderTimestampReport → Option ResponderTimestampReport
find_report index [] = none
find_report index (r ∷ rs) = if r.responder_index == index then some r else find_report index rs

module _ (env : Environment) where
  abbrev pub is_replayed_final : SessionOf env → MacHeader → Bool
  is_replayed_final s h =
      s.has_received_final_data_counter && leb h.frame_counter s.last_final_data_counter

  abbrev pub twr_timestamps :
      SessionOf env → FinalDataPayload → ResponderTimestampReport → DoubleSidedTwrTimestamps
  twr_timestamps s f r = record {
    round1_dtu = r.poll_to_response_delta_dtu;
    reply1_dtu = u32 (sub_u64 s.resp_tx_timestamp_dtu s.poll_rx_timestamp_dtu);
    round2_dtu = u32 (sub_u64 s.final_rx_timestamp_dtu s.resp_tx_timestamp_dtu);
    reply2_dtu = sub_u32 f.poll_to_final_tx_delta_dtu r.poll_to_response_delta_dtu;
  }

  abbrev pub angle_of : SessionOf env → AoAEstimate
  angle_of s =
      if s.node_config.enable_aoa
      then from_pdoa env.floats s.final_pdoa_raw s.params.channel
          s.node_config.aoa_antenna_spacing_mm
      else record { centi_degrees = pos 0; valid = false }

  -- The detector and its verdict; an angle that is not valid is not looked at.
  abbrev pub angle_verdict : SessionOf env → AoaStabilityDetector × AoaStabilityVerdict
  angle_verdict s =
      if (angle_of s).valid
      then ingest_angle env.stability s.aoa_stability (angle_of s).centi_degrees
      else (s.aoa_stability, record { jump = false; gated = false })

  abbrev pub nlos_verdict : SessionOf env → NlosVerdict
  nlos_verdict s = evaluate env.nlos_margin_db_q8 (record {
    first_path_power_db_q8 = s.final_first_path_db_q8;
    rssi_db_q8 = s.final_rssi_db_q8;
  })

  abbrev pub filtered : SessionOf env → ℤ → RangeConsensusFilter × RangeIntegrityReport
  filtered s distance = ingest env.consensus s.filter (record {
    distance = distance;
    driver_verdict = if s.final_sts_passed then pos 0 else negsuc 0;
    sts_quality_metric = s.final_sts_quality;
  })

  abbrev pub integrity_of : SessionOf env → ℤ → RangeIntegrityReport
  integrity_of s distance =
      let report = (filtered s distance).1 in
      record report {
        nlos_valid = (nlos_verdict s).valid && s.final_nlos_diag_valid;
        nlos_detected = (nlos_verdict s).nlos || (angle_verdict s).1.gated;
        first_path_power_db_q8 = s.final_first_path_db_q8;
        rssi_db_q8 = s.final_rssi_db_q8;
        aoa_unstable =
            (if (angle_of s).valid then (angle_verdict s).1.jump else report.aoa_unstable);
      }

  abbrev pub ranging_result : SessionOf env → ℤ → RangingResult
  ranging_result s distance = record {
    session_id = s.params.session_id;
    block_index = s.current_block;
    round_in_block =
        if s.current_round == scheduled_round_for s.params s.current_block then 0 else 1;
    distance = distance;
    integrity = integrity_of s distance;
    timestamp_us = env.platform.monotonic_time_us s.controller.trace;
    aoa_centi_degrees = (angle_of s).centi_degrees;
    aoa_valid = (angle_of s).valid;
  }

  -- The filter and the detector take the distance, and the callback is called if there is one.
  abbrev pub report_distance : SessionOf env → Result ℤ → SessionOf env
  report_distance s (err e) = s
  report_distance s (ok distance) = record s {
    filter = (filtered s distance).0;
    aoa_stability = (angle_verdict s).0;
    results = if s.has_callback then ranging_result s distance ∷ s.results else s.results;
  }

  abbrev pub with_report :
      SessionOf env → FinalDataPayload → Option ResponderTimestampReport → SessionOf env
  with_report s f none = s
  with_report s f (some r) =
      report_distance s (calculate_distance (twr_timestamps s f r) s.node_config.antenna_delay_bias)

  -- The counter is remembered before the STS index is tested.
  abbrev pub with_payload : SessionOf env → MacHeader → Result FinalDataPayload → SessionOf env
  with_payload s h (err e) = arm_pre_poll_listening env s
  with_payload s h (ok f) =
      let seen = record s {
        last_final_data_counter = h.frame_counter;
        has_received_final_data_counter = true;
      } in
      if not (f.session_id == s.params.session_id)
      then arm_pre_poll_listening env s
      else if not (f.final_sts_index == u32 (s.armed_poll_sts_index + 1 + s.params.responder_count))
      then arm_pre_poll_listening env seen
      else arm_pre_poll_listening env
          (with_report seen f (find_report s.node_config.responder_index f.responder_reports))

  abbrev pub decrypted_final : Result ℕ × Bytes → Result FinalDataPayload
  decrypted_final (err e, plain) = err e
  decrypted_final (ok n, plain) = decode_final_data (take n plain)

  -- The payload of a frame under the keys of the armed Poll slot.
  abbrev pub open_final_data :
      SessionOf env → Bytes → MacHeader → Result SlotCryptoMaterial → Result FinalDataPayload
  open_final_data s frame h (err e) = err e
  open_final_data s frame h (ok keys) = decrypted_final (
      decrypt_payload env.crypto keys.dudsk_key s.addresses.source_long h.frame_counter
        (take mac_header_length frame)
        (take (h.payload_length + mic_length) (drop mac_header_length frame)) (replicate 128 0))

  abbrev pub armed_slot_keys : SessionOf env → Result SlotCryptoMaterial
  armed_slot_keys s =
      slot_keys env.crypto s.mursk s.salted_hash s.params s.node_config.responder_index
        s.armed_poll_sts_index

  abbrev pub with_final_header : SessionOf env → Bytes → Result MacHeader → SessionOf env
  with_final_header s frame (err e) = arm_pre_poll_listening env s
  with_final_header s frame (ok h) =
      if not (h.message_id == final_data_message)
      then arm_pre_poll_listening env s
      else if is_replayed_final s h
      then arm_pre_poll_listening env s
      else if ltb (length frame) (mac_header_length + (h.payload_length + mic_length))
      then arm_pre_poll_listening env s
      else with_payload s h (open_final_data s frame h (armed_slot_keys s))

  abbrev pub with_final_frame : SessionOf env → Result ℕ × Bytes × Controller → SessionOf env
  with_final_frame s (err e, buffer, c) =
      arm_pre_poll_listening env (record s { rx_frame_buffer = buffer; controller = c })
  with_final_frame s (ok n, buffer, c) =
      let s' = record s { rx_frame_buffer = buffer; controller = c } in
      if ltb n mac_header_length
      then arm_pre_poll_listening env s'
      else with_final_header s' (take n buffer) (decode_header (take n buffer))

  unfoldable pub handle_final_data_reception : SessionOf env → SessionOf env
  unfolding arm_pre_poll_listening
  handle_final_data_reception s =
      with_final_frame s (read_received_data env.platform s.rx_frame_buffer 0 s.controller)
