-- ===== src/Session/Exchange.antt =====
-- src/session/RangingSession.cpp: the Pre-Poll, the Poll, the response that was sent, and the Final.
pub mod Rules
pub mod Keyed
pub mod Silent
use aliro_ccc_core.Base.{
  ℕ, ◌+◌, ◌*◌, Bool, true, false, not, ◌&&◌, List, [], length, take, write, min, ltb, if◌then◌else◌,
}
use aliro_ccc_core.Base.Words.{Bytes, u32, sub_u32, ◌>>>◌}
use aliro_ccc_core.Core.{Result, ok, err}
use aliro_ccc_core.Crypto.Kdf.{SlotCryptoMaterial}
use aliro_ccc_core.Frame.{MacHeader, PrePollPayload, decode_header, mac_header_length}
use aliro_ccc_core.Setup.{RangingSessionParameters}
use aliro_ccc_core.Transceiver.Platform.{Controller, force_receiver_off}
use aliro_ccc_core.Transceiver.StsKeys.{StsMode, set_sts_mode, load_sts_key_iv}
use aliro_ccc_core.Transceiver.Arming.{start_delayed_tx, start_delayed_rx, start_immediate_rx}
use aliro_ccc_core.Transceiver.Reading.{
  read_received_data, read_tx_timestamp_dtu, read_final_first_path_diagnostics,
}
use aliro_ccc_core.Transceiver.Events.{RxSuccessEvent}
use aliro_ccc_core.Session.Cycle.{CycleKeys}
use aliro_ccc_core.Session.PrePoll.{Freshness, header_ok, is_stale, decode_pre_poll_frame}
use aliro_ccc_core.Session.State.{
  awaiting_poll, transmitting_response, awaiting_final, awaiting_final_data, Environment, Session,
  SessionOf, keys_of,
}
use aliro_ccc_core.Session.Listening.{
  is_block_parity_eligible, cycle_keys_of, refresh_warm_keys, announced, process_stashed_pre_poll,
  arm_pre_poll_listening,
}

abbrev pub ticks_per_rstu_hi32 : ℕ
ticks_per_rstu_hi32 = 208

abbrev pub lead_time_hi32 : ℕ
lead_time_hi32 = 40000

abbrev pub window_timeout_dtu : ℕ
window_timeout_dtu = 1350

abbrev pub resp_ant_delay_hi32 : ℕ
resp_ant_delay_hi32 = 62

abbrev pub immediate_search_window_dtu : ℕ
immediate_search_window_dtu = 4000

-- The upper 32 of the 40 bits of a timestamp.
abbrev pub hi32 : ℕ → ℕ
hi32 timestamp = u32 (timestamp >>> 8)

-- The time of the slot `offset` slots after `base`, less `early`, in 32 bits.
abbrev pub slot_time : RangingSessionParameters → ℕ → ℕ → ℕ → ℕ
slot_time p base offset early =
    sub_u32 (u32 (base + u32 (offset * u32 (p.slot_duration_rstu * ticks_per_rstu_hi32)))) early

module _ (env : Environment) where
  -- A delayed window, or an immediate one if it is too late for that.
  abbrev pub or_immediate : ℕ → Result (Unit {0}) × Controller → Controller
  or_immediate window (ok done, c) = c
  or_immediate window (err e, c) = (start_immediate_rx env.platform window c).1

  abbrev pub open_window : ℕ → ℕ → ℕ → Controller → Controller
  open_window time timeout window c =
      or_immediate window (start_delayed_rx env.platform time timeout c)

  -- The mode without data, and the keys of one leg.
  abbrev pub load_leg : SlotCryptoMaterial → Controller → Controller
  load_leg leg c = (load_sts_key_iv leg.dursk_key leg.sts_iv (set_sts_mode StsMode.no_data_sp3 c)).1

  -- The armed cycle's Poll window opens.
  abbrev pub await_poll : ℕ → SessionOf env → SessionOf env
  await_poll time s = record s {
    controller =
        open_window time window_timeout_dtu immediate_search_window_dtu
          (load_leg s.armed.poll s.controller);
    state = awaiting_poll;
  }

  abbrev pub arm_with : CycleKeys → SessionOf env → SessionOf env
  arm_with keys s = record s {
    armed = keys;
    armed_keys_valid = true;
    armed_poll_sts_index = keys.poll_sts_index;
  }

  -- `m_stashLen = min(frame.size(), 128)`, and the bytes.
  abbrev pub stash : Bytes → SessionOf env → SessionOf env
  stash frame s =
      let n = min (length frame) 128 in
      record s { stash_len = n; stash_frame = write 0 (take n frame) s.stash_frame }

  -- The tests after the arming: a frame that is not for this session ends the warm keys.
  abbrev pub check_header : SessionOf env → Result MacHeader → SessionOf env
  check_header s (err e) = record s { warm_valid = false }
  check_header s (ok h) =
      if header_ok (keys_of s) h && not (is_stale s.freshness h)
      then s
      else record s { warm_valid = false }

  unfoldable pub arm_warm : Bytes → ℕ → SessionOf env → SessionOf env
  arm_warm frame time s =
      check_header (await_poll time (stash frame (arm_with s.warm s))) (decode_header frame)

  abbrev pub bootstrapped : ℕ → SessionOf env → Result (Unit {0}) × CycleKeys → SessionOf env
  bootstrapped time s (err e, keys) = arm_pre_poll_listening env (record s { armed = keys })
  bootstrapped time s (ok done, keys) = refresh_warm_keys env (await_poll time (arm_with keys s))

  abbrev pub with_pre_poll : ℕ → SessionOf env → Result PrePollPayload × Freshness → SessionOf env
  with_pre_poll time s (err e, f) = arm_pre_poll_listening env (record s { freshness = f })
  with_pre_poll time s (ok p, f) =
      let known = announced env s f p in
      let quiet = record known { controller = force_receiver_off s.controller } in
      if is_block_parity_eligible s.node_config p.ranging_block
      then bootstrapped time quiet (cycle_keys_of env s p.poll_sts_index s.armed)
      else arm_pre_poll_listening env known

  unfoldable pub bootstrap : Bytes → ℕ → SessionOf env → SessionOf env
  unfolding refresh_warm_keys arm_pre_poll_listening
  bootstrap frame time s =
      with_pre_poll time s (decode_pre_poll_frame env.crypto (keys_of s) s.freshness frame)

  -- A frame that holds a header at least.
  abbrev pub with_frame : ℕ → SessionOf env → Result ℕ × Bytes × Controller → SessionOf env
  with_frame time s (err e, buffer, c) =
      arm_pre_poll_listening env (record s { rx_frame_buffer = buffer; controller = c })
  with_frame time s (ok n, buffer, c) =
      let s' = record s { rx_frame_buffer = buffer; controller = c } in
      if ltb n mac_header_length
      then arm_pre_poll_listening env s'
      else if s.warm_valid
      then arm_warm (take n buffer) time s'
      else bootstrap (take n buffer) time s'

  unfoldable pub handle_pre_poll_reception : RxSuccessEvent → SessionOf env → SessionOf env
  unfolding arm_warm bootstrap arm_pre_poll_listening
  handle_pre_poll_reception event s =
      with_frame (slot_time s.params (hi32 event.rx_timestamp_dtu) 1 lead_time_hi32) s
        (read_received_data env.platform s.rx_frame_buffer 0 s.controller)

  -- The response is on its way, or too late.
  abbrev pub responding : SessionOf env → Result (Unit {0}) × Controller → SessionOf env
  responding s (ok done, c) = record s { controller = c; state = transmitting_response }
  responding s (err e, c) = arm_pre_poll_listening env (record s { controller = c })

  unfoldable pub handle_poll_reception : RxSuccessEvent → SessionOf env → SessionOf env
  unfolding arm_pre_poll_listening
  handle_poll_reception event s =
      let seen = record s { poll_rx_timestamp_dtu = event.rx_timestamp_dtu } in
      let time =
        slot_time s.params (hi32 event.rx_timestamp_dtu) (1 + s.node_config.responder_index)
          resp_ant_delay_hi32 in
      if not event.sts_passed
      then arm_pre_poll_listening env s
      else if not s.armed_keys_valid
      then arm_pre_poll_listening env seen
      else responding seen
          (start_delayed_tx env.platform time [] true (load_leg s.armed.response s.controller))

  -- The end of the response's transmission.
  unfoldable pub transmitted : SessionOf env → SessionOf env
  unfolding arm_pre_poll_listening
  transmitted s =
      let (timestamp, c) = read_tx_timestamp_dtu env.platform s.controller in
      let sent = record s { resp_tx_timestamp_dtu = timestamp; controller = c } in
      let time =
        slot_time s.params (hi32 s.poll_rx_timestamp_dtu) (1 + s.params.responder_count)
          lead_time_hi32 in
      if not s.armed_keys_valid then arm_pre_poll_listening env sent else record sent {
        controller =
            open_window time window_timeout_dtu window_timeout_dtu (load_leg s.armed.final_ c);
        state = awaiting_final;
      }

  -- The window of the Final-Data opens before the diagnostics are read.
  abbrev pub final_data_controller : SessionOf env → Controller
  final_data_controller s =
      open_window
        (slot_time s.params (hi32 s.poll_rx_timestamp_dtu) (2 + s.params.responder_count)
          lead_time_hi32)
        (window_timeout_dtu * 2) (window_timeout_dtu * 2)
        (set_sts_mode StsMode.off (force_receiver_off s.controller))

  -- What a Final leaves to the members: its event and the diagnostics.
  abbrev pub final_seen : RxSuccessEvent → SessionOf env → SessionOf env
  final_seen event s =
      let (diag, c) = read_final_first_path_diagnostics env.platform (final_data_controller s) in
      record s {
        final_rx_timestamp_dtu = event.rx_timestamp_dtu;
        final_sts_quality = event.sts_quality_index;
        final_sts_passed = event.sts_passed;
        final_pdoa_raw = event.pdoa_raw;
        final_pdoa_valid = event.pdoa_valid;
        final_first_path_db_q8 = diag.first_path_power_db_q8;
        final_rssi_db_q8 = diag.rssi_db_q8;
        final_nlos_diag_valid = diag.valid;
        controller = c;
        state = awaiting_final_data;
      }

  unfoldable pub handle_final_reception : RxSuccessEvent → SessionOf env → SessionOf env
  unfolding process_stashed_pre_poll
  handle_final_reception event s = process_stashed_pre_poll env (final_seen event s)
