-- ===== src/Checks/Session.antt =====
-- Runs of the session's schedule and of its Pre-Poll frames.
use aliro_ccc_core.Base.{
  ℕ, ◌+◌, ◌<◌, ◌≡◌, ◌⊎◌, refl, arith, true, false, [], ◌∷◌, ◌++◌, replicate, bytes_eq, ◌≢◌, inl,
}
use aliro_ccc_core.Base.Words.{Bytes, u16, of_le16, of_le24, of_le32, of_be32}
use aliro_ccc_core.Core.{ok, err, malformed_frame}
use aliro_ccc_core.Frame.{decode_header, encode_header, decode_pre_poll, encode_pre_poll}
use aliro_ccc_core.Crypto.Sp0.{encrypt_payload, decrypt_payload, xor_blocks}
use aliro_ccc_core.Setup.{RangingSessionParameters, default_parameters}
use aliro_ccc_core.Session.PrePoll.{Freshness, SessionKeys, decode_pre_poll_frame, header_ok}
use aliro_ccc_core.Session.PrePoll.Replay.{
  after_frames, Verdict, decode_pre_poll_frame_lem, decode_pre_poll_frame_replay,
}
use aliro_ccc_core.Session.Schedule.{
  rounds_per_block, poll_sts_index_for, scheduled_round_for, next_scheduled_exchange,
}
use aliro_ccc_core.Session.Schedule.Indices.{poll_sts_index_for-distinct}
use aliro_ccc_core.Session.Schedule.Next.{next_scheduled_exchange_later}
use aliro_ccc_core.Checks.Frames.{a_header, a_pre_poll}
use aliro_ccc_core.Crypto.Kdf.{kdf108, derive_sts_iv, derive_slot_keys}
use aliro_ccc_core.Session.Cycle.{CycleKeys, derive_cycle_keys}
use aliro_ccc_core.Session.Cycle.Legs.{derive_cycle_keys_round}
use aliro_ccc_core.Checks.Crypto.{a_slot, toy, a_key}

-- 12 slots of 1,200 RSTU take 12 ms, so that a block of 96 ms has 8 rounds; two rounds a block.
abbrev pub some_parameters : RangingSessionParameters
some_parameters = record default_parameters {
  duration_ms = 96;
  slot_duration_rstu = 1200;
  mac_mode = 66;
  sts_index0 = 1000;
}

poll_sts_index_for-distinct_example :
    poll_sts_index_for some_parameters 3 2 ≢ poll_sts_index_for some_parameters 4 2
unfolding rounds_per_block
poll_sts_index_for-distinct_example =
    poll_sts_index_for-distinct some_parameters 3 4 2 2 (omega arith) (omega arith) (omega arith)
      (omega arith) (omega arith) (inl (omega arith))

next_scheduled_exchange_later_example :
    (2 < rounds_per_block some_parameters)
    × (((◌≡◌ {A = ℕ} 3 3) × (0 < 2))
        ⊎ ((3 ≡ u16 (3 + 1)) × (2 ≡ scheduled_round_for some_parameters 3)))
unfolding next_scheduled_exchange rounds_per_block
next_scheduled_exchange_later_example =
    next_scheduled_exchange_later some_parameters 3 0 3 2 (omega arith) (omega arith) refl

abbrev pub some_keys : SessionKeys
some_keys = record {
  mupsk1 = a_key;
  addresses = record {
    key_source = 1 ∷ 2 ∷ 3 ∷ 4 ∷ [];
    destination_short = 0x1234;
    source_long = replicate 8 5;
  };
  session_id = 77;
}

abbrev pub nothing_yet : Freshness
nothing_yet = record {
  last_pre_poll_counter = 0;
  has_received_pre_poll_counter = false;
  last_pre_poll_sts_index = 0;
  has_pre_poll_sts_index = false;
}

abbrev one_seen : Freshness
one_seen = record {
  last_pre_poll_counter = 7;
  has_received_pre_poll_counter = true;
  last_pre_poll_sts_index = 1000;
  has_pre_poll_sts_index = true;
}

unfoldable pub a_sealed_frame : Bytes
unfolding encode_header encode_pre_poll encrypt_payload xor_blocks
a_sealed_frame =
    let header = (encode_header a_header (replicate 23 0)).1 in
    let payload = (encode_pre_poll a_pre_poll (replicate 13 0)).1 in
    header ++ (encrypt_payload toy a_key (replicate 8 5) 7 header payload (replicate 21 0)).1

accepted :
    decode_pre_poll_frame toy some_keys nothing_yet a_sealed_frame ≡ (ok a_pre_poll, one_seen)
unfolding decode_pre_poll_frame a_sealed_frame decode_header header_ok bytes_eq decrypt_payload
    decode_pre_poll of_le16 of_le24 of_le32
accepted = refl

decode_pre_poll_frame_lem_example :
    Verdict toy some_keys nothing_yet a_sealed_frame (ok a_pre_poll) one_seen
decode_pre_poll_frame_lem_example =
    decode_pre_poll_frame_lem toy some_keys nothing_yet a_sealed_frame (ok a_pre_poll) one_seen
      accepted

decode_pre_poll_frame_replay_example :
    decode_pre_poll_frame toy some_keys
      (after_frames toy some_keys one_seen (a_sealed_frame ∷ []))
      a_sealed_frame
    ≡ (err malformed_frame, after_frames toy some_keys one_seen (a_sealed_frame ∷ []))
decode_pre_poll_frame_replay_example =
    decode_pre_poll_frame_replay toy some_keys nothing_yet a_sealed_frame a_pre_poll one_seen
      (a_sealed_frame ∷ []) accepted

abbrev pub no_cycle : CycleKeys
no_cycle = record { poll_sts_index = 0; poll = a_slot; response = a_slot; final_ = a_slot }

derive_cycle_keys_round_example :
    derive_cycle_keys toy a_key a_key default_parameters 0 6 no_cycle ≡ (
      ok tt,
      record {
        poll_sts_index = 6;
        poll = a_slot;
        response = record a_slot { sts_iv = derive_sts_iv a_key 7 };
        final_ = record a_slot { sts_iv = derive_sts_iv a_key 8 };
      },
    )
unfolding derive_slot_keys kdf108 derive_sts_iv of_be32
derive_cycle_keys_round_example =
    derive_cycle_keys_round toy a_key a_key default_parameters 0 6 no_cycle a_slot (omega arith)
      (omega arith) (omega arith) (omega arith, omega arith) refl
