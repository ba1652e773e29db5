-- ===== src/Checks/Setup.antt =====
-- Runs of the codec of setup messages.
use aliro_ccc_core.Base.{
  none, some, ◌+◌, ◌≤◌, ◌≡◌, refl, arith, true, List, [], ◌∷◌, ◌++◌, length, take, drop,
}
use aliro_ccc_core.Base.Words.{Bytes, be16, be32, read_be16, of_be16, of_be32}
use aliro_ccc_core.Core.{ok, ◌>>=◌}
use aliro_ccc_core.Setup.{
  default_capabilities, default_parameters, config_id, pulse_shape_combo, session_id,
  channel_bitmask,
}
use aliro_ccc_core.Setup.Tlv.{TlvElement, parse_elements, parse_tlv_stream, concat_be16}
use aliro_ccc_core.Setup.Tlv.Stream.{image, parse_tlv_stream-image, parse_elements-fuel}
use aliro_ccc_core.Setup.Tlv.Canonical.{parse_tlv_stream_canonical}
use aliro_ccc_core.Setup.Codec.{build_m1, parse_m2, select_channel}
use aliro_ccc_core.Setup.Codec.Messages.{element, parse-build_m1}
use aliro_ccc_core.Setup.Codec.{parse_resume_response}
use aliro_ccc_core.Setup.Tlv.{read_be64}
use aliro_ccc_core.Setup.Codec.Resume.{last_of, sts_of, time_of, parse_resume_response_lem}

abbrev two_elements : List TlvElement
two_elements =
    record { tag = 3; value = 3 ∷ [] } ∷ record { tag = 2; value = 0 ∷ 0 ∷ 0 ∷ 77 ∷ [] } ∷ []

abbrev a_message : Bytes
a_message = 1 ∷ 1 ∷ 0 ∷ 9 ∷ 3 ∷ 1 ∷ 3 ∷ 2 ∷ 4 ∷ 0 ∷ 0 ∷ 0 ∷ 77 ∷ []

parse_tlv_stream-image_example :
    parse_tlv_stream
      (1 ∷ 1 ∷ (be16 (length (image two_elements)) ++ (image two_elements ++ (5 ∷ []))))
    ≡ ok two_elements
unfolding image
parse_tlv_stream-image_example = parse_tlv_stream-image 1 1 two_elements (5 ∷ []) (omega arith)

parse_elements-fuel_example : parse_elements 10 a_message 4 13 ≡ parse_elements 9 a_message 4 13
parse_elements-fuel_example = parse_elements-fuel 9 a_message 4 13 (omega arith)

parse_tlv_stream_canonical_example :
    (image two_elements ≡ take (read_be16 a_message 2) (drop 4 a_message))
    × (4 + read_be16 a_message 2 ≤ length a_message)
unfolding parse_tlv_stream of_be16
parse_tlv_stream_canonical_example = parse_tlv_stream_canonical a_message two_elements refl

parse-build_m1_example :
    (build_m1 77 default_capabilities >>= parse_tlv_stream)
    ≡ ok (
        element config_id (concat_be16 (0 ∷ []))
        ∷ element pulse_shape_combo (0 ∷ [])
        ∷ element channel_bitmask (2 ∷ [])
        ∷ element session_id (be32 77)
        ∷ [])
parse-build_m1_example = parse-build_m1 77 default_capabilities (omega arith) (omega arith)

-- The session and channel of that message.
parse_m2_test :
    parse_m2 a_message 77 default_capabilities default_parameters
    ≡ (ok tt, record default_parameters { session_id = 77 })
unfolding parse_m2 parse_tlv_stream of_be16 of_be32 select_channel
parse_m2_test = refl

abbrev a_resume_response : Bytes
a_resume_response =
    1 ∷ 7 ∷ 0 ∷ 19 ∷ 17 ∷ 1 ∷ 0 ∷ 12 ∷ 4 ∷ 0 ∷ 0 ∷ 1 ∷ 0 ∷ 13 ∷ 8 ∷ 0 ∷ 0 ∷ 0 ∷ 0 ∷ 0 ∷ 0 ∷ 1 ∷ 2
    ∷ []

resumed :
    parse_resume_response a_resume_response 9 9
    ≡ (ok tt, record { sts_index0 = 256; time0_us = 258; have_sts = true; have_time = true })
unfolding parse_resume_response parse_tlv_stream of_be16 of_be32 read_be64
resumed = refl

parse_resume_response_lem_example :
    (es : List TlvElement) × (parse_tlv_stream a_resume_response ≡ ok es)
    × (last_of sts_of es none ≡ some 256)
    × (last_of time_of es none ≡ some 258)
parse_resume_response_lem_example =
    parse_resume_response_lem a_resume_response 9 9
      (record { sts_index0 = 256; time0_us = 258; have_sts = true; have_time = true }) resumed
