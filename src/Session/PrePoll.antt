-- ===== src/Session/PrePoll.antt =====
-- src/session/RangingSession.cpp, `decodePrePollFrame`: when a Pre-Poll frame is accepted.
pub mod Replay
pub mod Genuine
use aliro_ccc_core.Base.{
  ℕ, ◌+◌, ◌-◌, Bool, true, false, not, ◌&&◌, ◌||◌, List, [], ◌∷◌, length, take, drop, replicate,
  bit_or, bytes_eq, ltb, leb, ◌==◌, if◌then◌else◌,
}
use aliro_ccc_core.Base.Words.{Bytes, u16, ◌>>>◌, ◌<<<◌, byte_at, sub_u32}
use aliro_ccc_core.Base.Int.{pos, leb_ℤ, wrap32}
use aliro_ccc_core.Core.{Result, ok, err, malformed_frame, MacAddresses}
use aliro_ccc_core.Crypto.Provider.{CryptoProvider}
use aliro_ccc_core.Crypto.Sp0.{decrypt_payload, mic_length}
use aliro_ccc_core.Frame.{
  MacHeader, PrePollPayload, decode_header, decode_pre_poll, mac_header_length,
  pre_poll_payload_length, pre_poll_message,
}

unfoldable pub match_key_source : Bytes → Bytes → Bool
match_key_source a b =
    bytes_eq a b
    || (byte_at a 0 == byte_at b 3
        && byte_at a 1 == byte_at b 2
        && byte_at a 2 == byte_at b 1
        && byte_at a 3 == byte_at b 0)

unfoldable pub match_short_address : ℕ → ℕ → Bool
match_short_address a b = a == b || a == u16 (bit_or (b >>> 8) (b <<< 8))

-- The members that say which frames are fresh.
pub record Freshness : Type 0 where
  pub last_pre_poll_counter : ℕ
  pub has_received_pre_poll_counter : Bool
  pub last_pre_poll_sts_index : ℕ
  pub has_pre_poll_sts_index : Bool

-- The members that are constant while a session listens.
pub record SessionKeys : Type 0 where
  pub mupsk1 : Bytes
  pub addresses : MacAddresses
  pub session_id : ℕ

-- `static_cast<int32_t>(a - b) <= 0`.
abbrev pub not_ahead : ℕ → ℕ → Bool
not_ahead a b = leb_ℤ (wrap32 (pos (sub_u32 a b))) (pos 0)

abbrev pub is_stale : Freshness → MacHeader → Bool
is_stale s h = s.has_received_pre_poll_counter && leb h.frame_counter s.last_pre_poll_counter

-- The tests of the header, each of which refuses the frame with the same error.
unfoldable pub header_ok : SessionKeys → MacHeader → Bool
unfolding match_short_address match_key_source
header_ok keys h =
    h.message_id == pre_poll_message
    && match_short_address h.destination_short_address keys.addresses.destination_short
    && match_key_source h.key_source keys.addresses.key_source

-- The payload of what was decrypted into the array.
abbrev pub decrypted_pre_poll : Result ℕ × Bytes → Result PrePollPayload
decrypted_pre_poll (err e, output) = err e
decrypted_pre_poll (ok n, output) = decode_pre_poll output

abbrev pub accept_pre_poll :
    SessionKeys → Freshness → MacHeader → Result PrePollPayload → Result PrePollPayload × Freshness
accept_pre_poll keys s h (err e) = (err malformed_frame, s)
accept_pre_poll keys s h (ok p) =
    if not (p.session_id == keys.session_id)
    then (err malformed_frame, s)
    else if s.has_pre_poll_sts_index && not_ahead p.poll_sts_index s.last_pre_poll_sts_index
    then (err malformed_frame, s)
    else (
      ok p,
      record {
        last_pre_poll_counter = h.frame_counter;
        has_received_pre_poll_counter = true;
        last_pre_poll_sts_index = p.poll_sts_index;
        has_pre_poll_sts_index = true;
      },
    )

module _ (crypto : CryptoProvider) (keys : SessionKeys) where
  -- The payload of a frame with a good header.
  unfoldable pub open_pre_poll : Bytes → MacHeader → Result PrePollPayload
  open_pre_poll frame h =
      let secured_len = h.payload_length + mic_length in
      decrypted_pre_poll (
        decrypt_payload crypto keys.mupsk1 keys.addresses.source_long h.frame_counter
          (take mac_header_length frame) (take secured_len (drop mac_header_length frame))
          (replicate pre_poll_payload_length 0))

  abbrev pub with_header : Freshness → Bytes → Result MacHeader → Result PrePollPayload × Freshness
  with_header s frame (err e) = (err malformed_frame, s)
  with_header s frame (ok h) =
      if not (header_ok keys h)
      then (err malformed_frame, s)
      else if is_stale s h
      then (err malformed_frame, s)
      else if ltb (length frame) (mac_header_length + (h.payload_length + mic_length))
      then (err malformed_frame, s)
      else accept_pre_poll keys s h (open_pre_poll frame h)

  unfoldable pub decode_pre_poll_frame : Freshness → Bytes → Result PrePollPayload × Freshness
  unfolding open_pre_poll
  decode_pre_poll_frame s frame = with_header s frame (decode_header frame)
