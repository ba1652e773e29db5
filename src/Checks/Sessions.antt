-- ===== src/Checks/Sessions.antt =====
-- Sessions over the toy cipher, and the frames of an exchange.
use aliro_ccc_core.Base.{true, false, [], ◌∷◌, ◌++◌, replicate}
use aliro_ccc_core.Base.Words.{Bytes}
use aliro_ccc_core.Base.Int.{ℤ, pos, negsuc}
use aliro_ccc_core.Core.{success}
use aliro_ccc_core.Frame.{FinalDataPayload, encode_header, encode_final_data}
use aliro_ccc_core.Crypto.Sp0.{encrypt_payload, xor_blocks}
use aliro_ccc_core.Ranging.Aoa.{Floats}
use aliro_ccc_core.Ranging.Consensus.{default_consensus_config, reset_filter}
use aliro_ccc_core.Ranging.Nlos.{nlos_margin_db_q8}
use aliro_ccc_core.Ranging.Stability.{default_stability_config, reset_detector}
use aliro_ccc_core.Transceiver.Events.{RxSuccessEvent}
use aliro_ccc_core.Session.State.{
  uninitialized, pre_poll_listening, awaiting_final_data, Environment, Session,
}
use aliro_ccc_core.Checks.Crypto.{toy, a_key}
use aliro_ccc_core.Checks.Frames.{a_header}
use aliro_ccc_core.Checks.Session.{some_keys, nothing_yet, no_cycle, some_parameters}
use aliro_ccc_core.Checks.Transceiver.{some_platform, some_controller}

-- Integers stand for floating-point numbers; no angle is estimated here.
abbrev pub integers : Floats
integers = record {
  Float = ℤ;
  of_int = λ a. a;
  mul = λ a b. a;
  div = λ a b. a;
  fmin = λ a b. a;
  fmax = λ a b. b;
  asin = λ a. a;
  lround = λ a. a;
  is_positive = λ a. false;
  pi = pos 3;
  wavelength_channel9_mm = pos 37;
  wavelength_channel5_mm = pos 46;
}

abbrev pub env_with : Bytes → Environment
env_with frame = record {
  platform = some_platform frame;
  crypto = toy;
  floats = integers;
  consensus = default_consensus_config;
  stability = default_stability_config;
  nlos_margin_db_q8 = nlos_margin_db_q8;
}

abbrev pub fresh_session : Session ℤ
fresh_session = record {
  controller = some_controller;
  filter = reset_filter;
  results = [];
  state = uninitialized;
  node_config = record {
    responder_index = 0;
    block_parity_filter = negsuc 0;
    antenna_delay_bias = pos 0;
    enable_aoa = false;
    aoa_antenna_spacing_mm = pos 0;
  };
  params = record some_parameters { session_id = 77; sts_index0 = 999 };
  has_callback = true;
  ursk = replicate 32 0;
  mursk = a_key;
  mupsk2 = a_key;
  mupsk1 = a_key;
  salted_hash = a_key;
  addresses = some_keys.addresses;
  material_valid = false;
  last_derive_error = success;
  current_block = 0;
  current_round = 0;
  armed_poll_sts_index = 0;
  poll_rx_timestamp_dtu = 0;
  resp_tx_timestamp_dtu = 0;
  final_rx_timestamp_dtu = 0;
  final_sts_quality = pos 0;
  final_sts_passed = false;
  final_pdoa_raw = pos 0;
  final_pdoa_valid = false;
  final_first_path_db_q8 = pos 0;
  final_rssi_db_q8 = pos 0;
  final_nlos_diag_valid = false;
  aoa_stability = reset_detector default_stability_config;
  warm_valid = false;
  warm = no_cycle;
  armed_keys_valid = false;
  armed = no_cycle;
  freshness = nothing_yet;
  last_final_data_counter = 0;
  has_received_final_data_counter = false;
  rx_frame_buffer = replicate 256 0;
  stash_frame = replicate 128 0;
  stash_len = 0;
}

abbrev pub listening : Session ℤ
listening = record fresh_session { state = pre_poll_listening }

abbrev pub a_reception : RxSuccessEvent
a_reception = record {
  raw_status_register = 0;
  frame_length = 0;
  rx_timestamp_dtu = 1000000;
  sts_quality_index = pos 60;
  sts_passed = true;
  pdoa_raw = pos 0;
  pdoa_valid = false;
}

abbrev pub a_final_data : FinalDataPayload
a_final_data = record {
  session_id = 77;
  ranging_block = 3;
  hop_flag = 0;
  round_index = 2;
  final_sts_index = 1002;
  poll_to_final_tx_delta_dtu = 400;
  responder_reports =
      record {
        responder_index = 0;
        poll_to_response_delta_dtu = 220;
        timestamp_uncertainty = 0;
        ranging_status = 0;
      }
      ∷ [];
}

unfoldable pub final_frame : Bytes
unfolding encode_header encode_final_data encrypt_payload xor_blocks
final_frame =
    let header =
      (encode_header (record a_header { frame_counter = 9; message_id = 2; payload_length = 25 })
        (replicate 23 0)).1 in
    let payload = (encode_final_data a_final_data (replicate 25 0)).1 in
    header ++ (encrypt_payload toy a_key (replicate 8 5) 9 header payload (replicate 33 0)).1

abbrev pub before_final_data : Session ℤ
before_final_data = record fresh_session {
  params = record some_parameters { session_id = 77; sts_index0 = 999; responder_count = 1 };
  state = awaiting_final_data;
  armed_poll_sts_index = 1000;
  poll_rx_timestamp_dtu = 1000;
  resp_tx_timestamp_dtu = 1200;
  final_rx_timestamp_dtu = 1400;
  last_final_data_counter = 8;
  has_received_final_data_counter = true;
}
