-- ===== src/Setup.antt =====
-- include/uwb/protocol/SetupMessageCodec.hpp: the types of the messages that set a session up.
pub mod Tlv
pub mod Codec
use aliro_ccc_core.Base.{ℕ, ◌+◌, ◌%◌, bit_or, ◌==◌, if◌then◌else◌, Bool, List, [], ◌∷◌}
use aliro_ccc_core.Base.Words.{Bytes}
use aliro_ccc_core.Core.{UwbChannel, channel9, HoppingMode, disabled}

pub data ProtocolCategory : Type 0 where
  access_profile uwb_ranging_service notification supplementary_service : ProtocolCategory

pub data MessageType : Type 0 where
  ranging_setup_m1 ranging_setup_m2 ranging_setup_m3 ranging_setup_m4 : MessageType
  suspend_request suspend_response resume_request resume_response : MessageType
  event_notification ranging_notification : MessageType

abbrev pub category_code : ProtocolCategory → ℕ
category_code access_profile = 0
category_code uwb_ranging_service = 1
category_code notification = 2
category_code supplementary_service = 3

abbrev pub message_code : MessageType → ℕ
message_code ranging_setup_m1 = 0
message_code ranging_setup_m2 = 1
message_code ranging_setup_m3 = 2
message_code ranging_setup_m4 = 3
message_code suspend_request = 4
message_code suspend_response = 5
message_code resume_request = 6
message_code resume_response = 7
message_code event_notification = 0
message_code ranging_notification = 1

-- A byte that is none of the enumerators is cast to the type all the same: `unlisted`.
pub data AttributeTag : Type 0 where
  config_id pulse_shape_combo session_id channel_bitmask ran_multiplier slot_bitmask : AttributeTag
  sync_code_index_bitmask sync_code_index hopping_config_bitmask chaps_per_slot : AttributeTag
  num_responders slots_per_round sts_index0 uwb_time0 hop_mode_key mac_mode : AttributeTag
  vendor_specific status : AttributeTag
  unlisted : ℕ → AttributeTag

abbrev pub tag_code : AttributeTag → ℕ
tag_code config_id = 0
tag_code pulse_shape_combo = 1
tag_code session_id = 2
tag_code channel_bitmask = 3
tag_code ran_multiplier = 4
tag_code slot_bitmask = 5
tag_code sync_code_index_bitmask = 6
tag_code sync_code_index = 7
tag_code hopping_config_bitmask = 8
tag_code chaps_per_slot = 9
tag_code num_responders = 10
tag_code slots_per_round = 11
tag_code sts_index0 = 12
tag_code uwb_time0 = 13
tag_code hop_mode_key = 14
tag_code mac_mode = 15
tag_code vendor_specific = 16
tag_code status = 17
tag_code (unlisted n) = n

listed_tags : List AttributeTag
listed_tags =
    config_id ∷ pulse_shape_combo ∷ session_id ∷ channel_bitmask ∷ ran_multiplier ∷ slot_bitmask
    ∷ sync_code_index_bitmask ∷ sync_code_index ∷ hopping_config_bitmask ∷ chaps_per_slot
    ∷ num_responders ∷ slots_per_round ∷ sts_index0 ∷ uwb_time0 ∷ hop_mode_key ∷ mac_mode
    ∷ vendor_specific ∷ status ∷ []

-- The enumerator of a byte.
find_tag : ℕ → List AttributeTag → AttributeTag
find_tag n [] = unlisted n
find_tag n (tag ∷ tags) = let rest = find_tag n tags in if tag_code tag == n then tag else rest

unfoldable pub tag_of : ℕ → AttributeTag
unfolding find_tag listed_tags
tag_of n = find_tag n listed_tags

pub record RangingSessionParameters : Type 0 where
  pub session_id : ℕ
  pub protocol_version : Bytes
  pub uwb_config_id : ℕ
  pub pulse_shape_combo : ℕ
  pub channel : UwbChannel
  pub sync_code_index : ℕ
  pub duration_ms : ℕ
  pub slot_duration_rstu : ℕ
  pub slots_per_round : ℕ
  pub hopping_mode : HoppingMode
  pub hopping_config_bitmask : ℕ
  pub hop_mode_key : Bytes
  pub sts_index0 : ℕ
  pub initiation_time_us : ℕ
  pub mac_mode : ℕ
  pub responder_count : ℕ

abbrev pub default_parameters : RangingSessionParameters
default_parameters = record {
  session_id = 0;
  protocol_version = 1 ∷ 0 ∷ [];
  uwb_config_id = 0;
  pulse_shape_combo = 0;
  channel = channel9;
  sync_code_index = 0;
  duration_ms = 0;
  slot_duration_rstu = 0;
  slots_per_round = 12;
  hopping_mode = disabled;
  hopping_config_bitmask = 0;
  hop_mode_key = 0 ∷ 0 ∷ 0 ∷ 0 ∷ [];
  sts_index0 = 0;
  initiation_time_us = 0;
  mac_mode = 0;
  responder_count = 1;
}

pub record DeviceCapabilities : Type 0 where
  pub supported_config_ids : List ℕ
  pub supported_pulse_shapes : Bytes
  pub channel_bitmask : ℕ
  pub slot_bitmask : ℕ
  pub sync_code_bitmask : ℕ
  pub hopping_config_bitmask : ℕ
  pub min_ran_multiplier : ℕ
  pub mac_mode : ℕ
  pub responder_count : ℕ

abbrev pub default_capabilities : DeviceCapabilities
default_capabilities = record {
  supported_config_ids = 0 ∷ [];
  supported_pulse_shapes = 0 ∷ [];
  channel_bitmask = 2;
  slot_bitmask = 1;
  sync_code_bitmask = 512;
  hopping_config_bitmask = 24;
  min_ran_multiplier = 1;
  mac_mode = 0;
  responder_count = 1;
}

-- `0x40 | (roundOffset & 0x3F)`.
abbrev pub build_mac_mode : Bool → ℕ → ℕ
build_mac_mode two_rounds round_offset = if two_rounds then bit_or 64 (round_offset % 64) else 0
