-- ===== src/Checks/Reporting.antt =====
-- A genuine Pre-Poll and a genuine Final-Data at concrete inputs.
use aliro_ccc_core.Base.{◌≡◌, refl, arith, [], ◌∷◌, replicate}
use aliro_ccc_core.Base.Words.{Bytes}
use aliro_ccc_core.Base.Int.{ℤ, pos, wrap32, wrap64, quot, ◌+ℤ◌, ◌-ℤ◌, ◌*ℤ◌}
use aliro_ccc_core.Frame.{MacHeader, ResponderTimestampReport, encode_header, encode_final_data}
use aliro_ccc_core.Crypto.Kdf.{SlotCryptoMaterial, derive_slot_keys, derive_sts_iv, kdf108}
use aliro_ccc_core.Crypto.Sp0.{encrypt_payload, xor_blocks}
use aliro_ccc_core.Ranging.Distance.{calculate_distance, calculate_signed_tof_ticks}
use aliro_ccc_core.Transceiver.Platform.{Controller}
use aliro_ccc_core.Transceiver.Reading.{read_received_data}
use aliro_ccc_core.Session.State.{pre_poll_listening, Session}
use aliro_ccc_core.Session.Dispatch.{on_rx_success}
use aliro_ccc_core.Session.FinalData.{ranging_result}
use aliro_ccc_core.Session.FinalData.Genuine.{IsGenuineFinalData}
use aliro_ccc_core.Session.FinalData.Accepting.{genuine_final_data_reports}
use aliro_ccc_core.Checks.Crypto.{toy, a_key, a_slot}
use aliro_ccc_core.Checks.Frames.{a_header}
use aliro_ccc_core.Checks.Sessions.{
  env_with, a_reception, a_final_data, final_frame, before_final_data,
}
use aliro_ccc_core.Session.PrePoll.{header_ok, decode_pre_poll_frame}
use aliro_ccc_core.Session.PrePoll.Genuine.{IsGenuinePrePoll, genuine_pre_poll_accepted}
use aliro_ccc_core.Checks.Session.{some_keys, nothing_yet, a_sealed_frame}
use aliro_ccc_core.Checks.Frames.{a_pre_poll}
use aliro_ccc_core.Frame.{encode_pre_poll}
use aliro_ccc_core.Base.{true, bytes_eq}
use aliro_ccc_core.Core.{ok}

abbrev armed_keys : SlotCryptoMaterial
armed_keys = record a_slot { sts_iv = derive_sts_iv a_key 1000 }

abbrev final_header : MacHeader
final_header = record a_header { frame_counter = 9; message_id = 2; payload_length = 25 }

abbrev own_report : ResponderTimestampReport
own_report = record {
  responder_index = 0;
  poll_to_response_delta_dtu = 220;
  timestamp_uncertainty = 0;
  ranging_status = 0;
}

final_frame-IsGenuineFinalData :
    IsGenuineFinalData toy armed_keys.dudsk_key before_final_data.addresses.source_long final_header
      a_final_data final_frame
unfolding final_frame encode_header encode_final_data encrypt_payload xor_blocks
final_frame-IsGenuineFinalData = record {
  payload = record {
    session = omega arith;
    block = omega arith;
    hop = omega arith;
    round = omega arith;
    sts = omega arith;
    delta = omega arith;
    few = omega arith;
    reports = (
      record {
        index = omega arith;
        delta = omega arith;
        uncertainty = omega arith;
        status = omega arith;
      },
      tt,
    );
  };
  message = refl;
  buffer = replicate 25 0;
  room = refl;
  sent = record {
    header = record {
      destination = omega arith;
      counter = omega arith;
      source = refl;
      message = omega arith;
      payload = omega arith;
    };
    sized = refl;
    header_buffer = replicate 23 0;
    header_room = refl;
    output = replicate 33 0;
    n = 33;
    sealed =
        (encrypt_payload toy armed_keys.dudsk_key before_final_data.addresses.source_long 9
          (encode_header final_header (replicate 23 0)).1
          (encode_final_data a_final_data (replicate 25 0)).1 (replicate 33 0)).1;
    sealing = refl;
    whole = refl;
  };
}

abbrev read_buffer : Bytes
read_buffer =
    (read_received_data (env_with final_frame).platform before_final_data.rx_frame_buffer 0
      before_final_data.controller).1

abbrev read_controller : Controller
read_controller =
    (read_received_data (env_with final_frame).platform before_final_data.rx_frame_buffer 0
      before_final_data.controller).2

genuine_final_data_reports_example :
    let env = env_with final_frame in
    let s : Session ℤ = record before_final_data {
      rx_frame_buffer = read_buffer;
      controller = read_controller;
    } in
    let t = on_rx_success env a_reception before_final_data in
    (t.state ≡ pre_poll_listening)
    × (t.results ≡ ranging_result env s (pos 46) ∷ [])
    × (t.last_final_data_counter ≡ 9)
unfolding read_received_data final_frame encode_header encode_final_data encrypt_payload
    derive_slot_keys derive_sts_iv kdf108 calculate_distance wrap32 ◌+ℤ◌ quot ◌*ℤ◌
    calculate_signed_tof_ticks wrap64 ◌-ℤ◌
genuine_final_data_reports_example =
    genuine_final_data_reports (env_with final_frame) a_reception before_final_data read_buffer
      read_controller armed_keys final_header a_final_data final_frame own_report (pos 46) refl refl
      refl refl refl final_frame-IsGenuineFinalData refl refl refl refl refl

a_sealed_frame-IsGenuinePrePoll : IsGenuinePrePoll toy some_keys a_header a_pre_poll a_sealed_frame
unfolding a_sealed_frame encode_header encode_pre_poll encrypt_payload xor_blocks header_ok bytes_eq
a_sealed_frame-IsGenuinePrePoll = record {
  payload = record {
    session = omega arith;
    sts = omega arith;
    block = omega arith;
    hop = omega arith;
    round = omega arith;
  };
  for_us = refl;
  session = refl;
  buffer = replicate 13 0;
  room = refl;
  sent = record {
    header = record {
      destination = omega arith;
      counter = omega arith;
      source = refl;
      message = omega arith;
      payload = omega arith;
    };
    sized = refl;
    header_buffer = replicate 23 0;
    header_room = refl;
    output = replicate 21 0;
    n = 21;
    sealed =
        (encrypt_payload toy some_keys.mupsk1 some_keys.addresses.source_long 7
          (encode_header a_header (replicate 23 0)).1
          (encode_pre_poll a_pre_poll (replicate 13 0)).1 (replicate 21 0)).1;
    sealing = refl;
    whole = refl;
  };
}

genuine_pre_poll_accepted_example :
    decode_pre_poll_frame toy some_keys nothing_yet a_sealed_frame ≡ (
      ok a_pre_poll,
      record {
        last_pre_poll_counter = 7;
        has_received_pre_poll_counter = true;
        last_pre_poll_sts_index = a_pre_poll.poll_sts_index;
        has_pre_poll_sts_index = true;
      },
    )
genuine_pre_poll_accepted_example =
    genuine_pre_poll_accepted toy some_keys nothing_yet a_header a_pre_poll a_sealed_frame
      a_sealed_frame-IsGenuinePrePoll refl refl
