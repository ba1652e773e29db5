-- ===== src/Checks/Frames.antt =====
-- Runs of the frame codec.
use aliro_ccc_core.Base.{◌≡◌, refl, arith, [], ◌∷◌, ◌++◌, replicate, take, drop}
use aliro_ccc_core.Base.Words.{Bytes, of_le16, of_le24, of_le32}
use aliro_ccc_core.Core.{ok}
use aliro_ccc_core.Frame.{
  MacHeader, PrePollPayload, FinalDataPayload, decode_header, encode_header, decode_final_data,
  encode_final_data,
}
use aliro_ccc_core.Frame.RoundTrip.{IsMacHeader, decode_header-encode_header}
use aliro_ccc_core.Frame.Reports.{decode_final_data-encode_final_data}
use aliro_ccc_core.Frame.Canonical.{encode_header-decode_header}

abbrev pub a_header : MacHeader
a_header = record {
  destination_short_address = 0x1234;
  frame_counter = 7;
  key_source = 1 ∷ 2 ∷ 3 ∷ 4 ∷ [];
  message_id = 1;
  payload_length = 13;
}

a_header-IsMacHeader : IsMacHeader a_header
a_header-IsMacHeader = record {
  destination = omega arith;
  counter = omega arith;
  source = refl;
  message = omega arith;
  payload = omega arith;
}

decode_header-encode_header_example :
    ((encode_header a_header (replicate 24 9)).0 ≡ ok 23)
    × (decode_header (encode_header a_header (replicate 24 9)).1 ≡ ok a_header)
decode_header-encode_header_example =
    decode_header-encode_header a_header (replicate 24 9) a_header-IsMacHeader (omega arith)

abbrev a_frame : Bytes
a_frame = (encode_header a_header (replicate 24 9)).1

encode_header-decode_header_example :
    encode_header a_header (replicate 23 0) ≡ (ok 23, take 23 a_frame ++ drop 23 (replicate 23 0))
unfolding decode_header encode_header of_le16 of_le24 of_le32
encode_header-decode_header_example =
    encode_header-decode_header a_frame (replicate 23 0) a_header (omega arith) refl (omega arith)

abbrev pub a_pre_poll : PrePollPayload
a_pre_poll = record {
  session_id = 77;
  poll_sts_index = 1000;
  ranging_block = 3;
  hop_flag = 0;
  round_index = 2;
}

abbrev a_final_data : FinalDataPayload
a_final_data = record {
  session_id = 77;
  ranging_block = 3;
  hop_flag = 0;
  round_index = 2;
  final_sts_index = 1004;
  poll_to_final_tx_delta_dtu = 123456;
  responder_reports =
      record {
        responder_index = 0;
        poll_to_response_delta_dtu = 70000;
        timestamp_uncertainty = 5;
        ranging_status = 0;
      }
      ∷ [];
}

decode_final_data-encode_final_data_example :
    ((encode_final_data a_final_data (replicate 30 1)).0 ≡ ok 25)
    × (decode_final_data (encode_final_data a_final_data (replicate 30 1)).1 ≡ ok a_final_data)
decode_final_data-encode_final_data_example =
    decode_final_data-encode_final_data a_final_data (replicate 30 1)
      (record {
        session = omega arith;
        block = omega arith;
        hop = omega arith;
        round = omega arith;
        sts = omega arith;
        delta = omega arith;
        few = omega arith;
        reports = (
          record {
            index = omega arith;
            delta = omega arith;
            uncertainty = omega arith;
            status = omega arith;
          },
          tt,
        );
      })
      (omega arith)
