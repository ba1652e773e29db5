-- ===== src/Session/Material.antt =====
-- src/session/RangingSession.cpp, `deriveSessionMaterial`: the keys of a session, each stored as it is
-- derived, until one fails.
pub mod Derived
use aliro_ccc_core.Base.{ℕ, ◌/◌, true, List, [], ◌∷◌, ◌++◌}
use aliro_ccc_core.Base.Words.{Bytes, u8, be16, be32, byte_at}
use aliro_ccc_core.Core.{Result, ok, err, MacAddresses}
use aliro_ccc_core.Crypto.Kdf.{
  derive_mupsk1, derive_mupsk2, derive_mursk, derive_salted_hash, derive_addresses,
}
use aliro_ccc_core.Setup.{RangingSessionParameters}
use aliro_ccc_core.Session.State.{Environment, Session, SessionOf}

-- The 17 bytes of the ranging configuration.
unfoldable pub ranging_config : RangingSessionParameters → Bytes
ranging_config p =
    u8 (byte_at p.protocol_version 0)
    ∷ u8 (byte_at p.protocol_version 1)
    ∷ (be16 p.uwb_config_id
        ++ (be32 p.session_id
            ++ (be32 p.sts_index0
                ++ (u8 p.responder_count
                    ∷ u8 (p.duration_ms / 96)
                    ∷ u8 p.slots_per_round
                    ∷ u8 (p.slot_duration_rstu / 400)
                    ∷ u8 p.pulse_shape_combo
                    ∷ []))))

module _ (env : Environment) where
  abbrev pub with_addresses : SessionOf env → Result MacAddresses → SessionOf env
  with_addresses s (err e) = record s { last_derive_error = e }
  with_addresses s (ok a) = record s { addresses = a; material_valid = true }

  abbrev pub with_salted_hash : SessionOf env → Result Bytes → SessionOf env
  with_salted_hash s (err e) = record s { last_derive_error = e }
  with_salted_hash s (ok h) =
      with_addresses (record s { salted_hash = h })
        (derive_addresses env.crypto s.mupsk2 s.params.sts_index0)

  abbrev pub with_mursk : SessionOf env → Result Bytes → SessionOf env
  with_mursk s (err e) = record s { last_derive_error = e }
  with_mursk s (ok k) =
      with_salted_hash (record s { mursk = k })
        (derive_salted_hash env.crypto s.ursk (ranging_config s.params))

  abbrev pub with_mupsk2 : SessionOf env → Result Bytes → SessionOf env
  with_mupsk2 s (err e) = record s { last_derive_error = e }
  with_mupsk2 s (ok k) = with_mursk (record s { mupsk2 = k }) (derive_mursk env.crypto s.ursk)

  abbrev pub with_mupsk1 : SessionOf env → Result Bytes → SessionOf env
  with_mupsk1 s (err e) = record s { last_derive_error = e }
  with_mupsk1 s (ok k) = with_mupsk2 (record s { mupsk1 = k }) (derive_mupsk2 env.crypto s.ursk)

  unfoldable pub derive_session_material : SessionOf env → SessionOf env
  unfolding ranging_config
  derive_session_material s = with_mupsk1 s (derive_mupsk1 env.crypto s.ursk)
