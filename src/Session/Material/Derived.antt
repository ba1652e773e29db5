-- ===== src/Session/Material/Derived.antt =====
-- The material of a session is valid only if all of it was derived.
use aliro_ccc_core.Base.{◌≡◌, refl, true, false, List}
use aliro_ccc_core.Base.Words.{Bytes}
use aliro_ccc_core.Core.{Result, ok, err, MacAddresses}
use aliro_ccc_core.Crypto.Kdf.{
  derive_mupsk1, derive_mupsk2, derive_mursk, derive_salted_hash, derive_addresses,
}
use aliro_ccc_core.Setup.{RangingSessionParameters}
use aliro_ccc_core.Transceiver.Platform.{Controller}
use aliro_ccc_core.Session.State.{
  SessionState, RangingResult, SessionNodeConfig, Environment, Session, SessionOf,
}
use aliro_ccc_core.Session.Listening.Kept.{Kept, kept}
use aliro_ccc_core.Session.Material.{
  ranging_config, with_addresses, with_salted_hash, with_mursk, with_mupsk2, with_mupsk1,
  derive_session_material,
}

-- What the derivation leaves alone.
pub record Untouched (F : Type 0) : Type 0 where
  pub controller : Controller
  pub state : SessionState
  pub results : List RangingResult
  pub ursk : Bytes
  pub params : RangingSessionParameters
  pub node_config : SessionNodeConfig F

abbrev pub untouched : {F : Type 0} → Session F → Untouched F
untouched s = record {
  controller = s.controller;
  state = s.state;
  results = s.results;
  ursk = s.ursk;
  params = s.params;
  node_config = s.node_config;
}

module _ (env : Environment) where
  -- The keys and addresses are those of the ranging secret and the parameters.
  pub record IsDerived (k : Kept) : Type 0 where
    pub mupsk1_key : derive_mupsk1 env.crypto k.ursk ≡ ok k.mupsk1
    pub mupsk2_key : derive_mupsk2 env.crypto k.ursk ≡ ok k.mupsk2
    pub mursk_key : derive_mursk env.crypto k.ursk ≡ ok k.material.mursk
    pub salted_hash_value :
        derive_salted_hash env.crypto k.ursk (ranging_config k.material.params)
        ≡ ok k.material.salted_hash
    pub addresses_of_mupsk2 :
        derive_addresses env.crypto k.mupsk2 k.material.params.sts_index0 ≡ ok k.addresses

  abbrev Ends : SessionOf env → SessionOf env → Type 0
  Ends s t = (t.material_valid ≡ true → IsDerived (kept t)) × (untouched t ≡ untouched s)

  stops : (s t : SessionOf env) → t.material_valid ≡ false → untouched t ≡ untouched s → Ends s t
  stops s t invalid same = (λ valid. cc (valid, invalid), same)

  with_addresses_lem :
      (s : SessionOf env) (r : Result MacAddresses)
      → s.material_valid ≡ false
      → derive_mupsk1 env.crypto s.ursk ≡ ok s.mupsk1
      → derive_mupsk2 env.crypto s.ursk ≡ ok s.mupsk2
      → derive_mursk env.crypto s.ursk ≡ ok s.mursk
      → derive_salted_hash env.crypto s.ursk (ranging_config s.params) ≡ ok s.salted_hash
      → derive_addresses env.crypto s.mupsk2 s.params.sts_index0 ≡ r
      → Ends s (with_addresses env s r)
  with_addresses_lem s (err e) invalid e1 e2 e3 e4 e5 =
      stops s (record s { last_derive_error = e }) invalid refl
  with_addresses_lem s (ok a) invalid e1 e2 e3 e4 e5 = (
    λ valid. record {
      mupsk1_key = e1;
      mupsk2_key = e2;
      mursk_key = e3;
      salted_hash_value = e4;
      addresses_of_mupsk2 = e5;
    },
    refl,
  )

  with_salted_hash_lem :
      (s : SessionOf env) (r : Result Bytes)
      → s.material_valid ≡ false
      → derive_mupsk1 env.crypto s.ursk ≡ ok s.mupsk1
      → derive_mupsk2 env.crypto s.ursk ≡ ok s.mupsk2
      → derive_mursk env.crypto s.ursk ≡ ok s.mursk
      → derive_salted_hash env.crypto s.ursk (ranging_config s.params) ≡ r
      → Ends s (with_salted_hash env s r)
  with_salted_hash_lem s (err e) invalid e1 e2 e3 e4 =
      stops s (record s { last_derive_error = e }) invalid refl
  with_salted_hash_lem s (ok h) invalid e1 e2 e3 e4 =
      with_addresses_lem (record s { salted_hash = h })
        (derive_addresses env.crypto s.mupsk2 s.params.sts_index0) invalid e1 e2 e3 e4 refl

  with_mursk_lem :
      (s : SessionOf env) (r : Result Bytes)
      → s.material_valid ≡ false
      → derive_mupsk1 env.crypto s.ursk ≡ ok s.mupsk1
      → derive_mupsk2 env.crypto s.ursk ≡ ok s.mupsk2
      → derive_mursk env.crypto s.ursk ≡ r
      → Ends s (with_mursk env s r)
  with_mursk_lem s (err e) invalid e1 e2 e3 =
      stops s (record s { last_derive_error = e }) invalid refl
  with_mursk_lem s (ok k) invalid e1 e2 e3 =
      with_salted_hash_lem (record s { mursk = k })
        (derive_salted_hash env.crypto s.ursk (ranging_config s.params)) invalid e1 e2 e3 refl

  with_mupsk2_lem :
      (s : SessionOf env) (r : Result Bytes)
      → s.material_valid ≡ false
      → derive_mupsk1 env.crypto s.ursk ≡ ok s.mupsk1
      → derive_mupsk2 env.crypto s.ursk ≡ r
      → Ends s (with_mupsk2 env s r)
  with_mupsk2_lem s (err e) invalid e1 e2 =
      stops s (record s { last_derive_error = e }) invalid refl
  with_mupsk2_lem s (ok k) invalid e1 e2 =
      with_mursk_lem (record s { mupsk2 = k }) (derive_mursk env.crypto s.ursk) invalid e1 e2 refl

  with_mupsk1_lem :
      (s : SessionOf env) (r : Result Bytes)
      → s.material_valid ≡ false
      → derive_mupsk1 env.crypto s.ursk ≡ r
      → Ends s (with_mupsk1 env s r)
  with_mupsk1_lem s (err e) invalid e1 = stops s (record s { last_derive_error = e }) invalid refl
  with_mupsk1_lem s (ok k) invalid e1 =
      with_mupsk2_lem (record s { mupsk1 = k }) (derive_mupsk2 env.crypto s.ursk) invalid e1 refl

  pub derive_session_material_lem :
      (s : SessionOf env)
      → s.material_valid ≡ false
      → ((derive_session_material env s).material_valid ≡ true
          → IsDerived (kept (derive_session_material env s)))
        × (untouched (derive_session_material env s) ≡ untouched s)
  unfolding derive_session_material
  derive_session_material_lem s invalid =
      with_mupsk1_lem s (derive_mupsk1 env.crypto s.ursk) invalid refl
