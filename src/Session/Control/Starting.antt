-- ===== src/Session/Control/Starting.antt =====
-- What a start and a resume with a new anchor leave.
use aliro_ccc_core.Base.{
  ℕ, ◌≡◌, refl, sym, ap, ◌∙◌, subst, Bool, true, false, not, ◌⊎◌, Bool-cases, inl, inr, if-elim,
}
use aliro_ccc_core.Base.Words.{Bytes}
use aliro_ccc_core.Core.{Result, ok, err, StatusCode, invalid_state}
use aliro_ccc_core.Setup.{RangingSessionParameters}
use aliro_ccc_core.Transceiver.Platform.{Controller, set_listener}
use aliro_ccc_core.Transceiver.Phy.{configure_phy}
use aliro_ccc_core.Session.State.{pre_poll_listening, SessionNodeConfig, Environment, SessionOf}
use aliro_ccc_core.Session.Material.{derive_session_material}
use aliro_ccc_core.Session.Material.Derived.{IsDerived, derive_session_material_lem}
use aliro_ccc_core.Session.Listening.{arm_pre_poll_listening}
use aliro_ccc_core.Session.Listening.Kept.{kept, arm_pre_poll_listening-kept}
use aliro_ccc_core.Session.Control.{
  is_suspended, hardware_config, cleared, with_phy, given, started, anchored, start,
  resume_with_anchor,
}

module _ (env : Environment) where
  -- A session that listens under fresh material: no keys are armed, and no Final-Data was seen.
  pub record IsFresh (t : SessionOf env) : Type 0 where
    pub listens : t.state ≡ pre_poll_listening
    pub derived : IsDerived env (kept t)
    pub unarmed : t.armed_keys_valid ≡ false
    pub unseen : t.has_received_final_data_counter ≡ false

  armed-IsFresh :
      (s : SessionOf env) (c : Controller)
      → IsDerived env (kept s)
      → IsFresh (arm_pre_poll_listening env (record (cleared env s) { controller = c }))
  armed-IsFresh s c d =
      let e = arm_pre_poll_listening-kept env (record (cleared env s) { controller = c }) in
      record {
        listens = ap (λ k. k.state) e;
        derived = subst (IsDerived env) (sym e) (record {
          mupsk1_key = d.mupsk1_key;
          mupsk2_key = d.mupsk2_key;
          mursk_key = d.mursk_key;
          salted_hash_value = d.salted_hash_value;
          addresses_of_mupsk2 = d.addresses_of_mupsk2;
        });
        unarmed = ap (λ k. k.armed_keys_valid) e;
        unseen = ap (λ k. k.has_received_final_data_counter) e;
      }

  -- A success begins with fresh material; an error leaves the state and the results.
  abbrev pub Begins :
      SessionOf env → Bytes → RangingSessionParameters → Result (Unit {0}) × SessionOf env → Type 0
  Begins s ursk params (ok done, t) = IsFresh t × (t.ursk ≡ ursk) × (t.params ≡ params)
  Begins s ursk params (err e, t) = (t.state ≡ s.state) × (t.results ≡ s.results)

  -- The derived session still has what it was given.
  abbrev IsGiven : SessionOf env → Bytes → RangingSessionParameters → SessionOf env → Type 0
  IsGiven s ursk params d =
      (d.state ≡ s.state)
      × (d.results ≡ s.results)
      × (d.ursk ≡ ursk)
      × (d.params ≡ params)
      × (d.material_valid ≡ true → IsDerived env (kept d))

  refused :
      (s : SessionOf env) (ursk : Bytes) (params : RangingSessionParameters) (d t : SessionOf env)
      (code : StatusCode)
      → IsGiven s ursk params d
      → t.state ≡ d.state
      → t.results ≡ d.results
      → Begins s ursk params (err code, t)
  refused s ursk params d t code g e1 e2 = (e1 ∙ g.0, e2 ∙ g.1)

  begins :
      (s : SessionOf env) (ursk : Bytes) (params : RangingSessionParameters) (d : SessionOf env)
      (c : Controller)
      → IsGiven s ursk params d
      → d.material_valid ≡ true
      → Begins s ursk params
          (ok tt, arm_pre_poll_listening env (record (cleared env d) { controller = c }))
  begins s ursk params d c (e1, e2, e3, e4, material) valid =
      let e = arm_pre_poll_listening-kept env (record (cleared env d) { controller = c }) in
      (
        armed-IsFresh d c (material valid),
        ap (λ k. k.ursk) e ∙ e3,
        ap (λ k. k.material.params) e ∙ e4,
      )

  with_phy-Begins :
      (s : SessionOf env) (ursk : Bytes) (params : RangingSessionParameters) (d : SessionOf env)
      (r : Result (Unit {0}) × Controller)
      → IsGiven s ursk params d
      → d.material_valid ≡ true
      → Begins s ursk params (with_phy env (cleared env d) r)
  with_phy-Begins s ursk params d (err code, c) g valid =
      refused s ursk params d (record (cleared env d) { controller = c }) code g refl refl
  with_phy-Begins s ursk params d (ok done, c) g valid =
      begins s ursk params d (set_listener true c) g valid

  not-false : (b : Bool) → not b ≡ false → b ≡ true
  not-false true e = refl
  not-false false e = cc

  started-Begins :
      (s : SessionOf env) (ursk : Bytes) (params : RangingSessionParameters) (d : SessionOf env)
      → IsGiven s ursk params d
      → Begins s ursk params (started env d)
  started-Begins s ursk params d g =
      if-elim {A = Result (Unit {0}) × SessionOf env} (Begins s ursk params) (not d.material_valid)
        (λ e. refused s ursk params d d d.last_derive_error g refl refl)
        (λ e.
          with_phy-Begins s ursk params d
            (configure_phy env.platform (hardware_config env d) d.controller) g
            (not-false d.material_valid e))

  anchored-Begins :
      (s : SessionOf env) (ursk : Bytes) (params : RangingSessionParameters) (d : SessionOf env)
      → IsGiven s ursk params d
      → Begins s ursk params (anchored env d)
  anchored-Begins s ursk params d g =
      if-elim {A = Result (Unit {0}) × SessionOf env} (Begins s ursk params) (not d.material_valid)
        (λ e. refused s ursk params d d d.last_derive_error g refl refl)
        (λ e. begins s ursk params d d.controller g (not-false d.material_valid e))

  derived-IsGiven :
      (s d : SessionOf env)
      → d.material_valid ≡ false
      → d.state ≡ s.state
      → d.results ≡ s.results
      → IsGiven s d.ursk d.params (derive_session_material env d)
  derived-IsGiven s d invalid e1 e2 =
      let (material, same) = derive_session_material_lem env d invalid in
      (
        ap (λ u. u.state) same ∙ e1,
        ap (λ u. u.results) same ∙ e2,
        ap (λ u. u.ursk) same,
        ap (λ u. u.params) same,
        material,
      )

  -- Where no material was valid before, a start that succeeds leaves a listening session with the
  -- given secret and parameters, all of its keys and addresses derived from these, with no keys armed
  -- and no Final-Data seen; a start that fails leaves the state and the results.
  pub start-Begins :
      (ursk : Bytes) (params : RangingSessionParameters)
      (config : SessionNodeConfig env.floats.Float) (has_callback : Bool) (s : SessionOf env)
      → s.material_valid ≡ false
      → Begins s ursk params (start env ursk params config has_callback s)
  unfolding start
  start-Begins ursk params config has_callback s invalid =
      let d = given env ursk params config has_callback s in
      started-Begins s ursk params (derive_session_material env d)
        (derived-IsGiven s d invalid refl refl)

  abbrev anchor : SessionOf env → ℕ → SessionOf env
  anchor s sts_index0 = record s {
    params = record s.params { sts_index0 = sts_index0 };
    material_valid = false;
  }

  -- A resume with an anchor that succeeds leaves a listening session whose keys and addresses are all
  -- derived from its secret and from its parameters with the new STS index, with no keys armed and no
  -- Final-Data seen; one that fails, as it does unless the session is suspended, leaves the state and
  -- the results.
  pub resume_with_anchor-Begins :
      (sts_index0 : ℕ) (s : SessionOf env)
      → Begins s s.ursk
          (record s.params { sts_index0 = sts_index0 })
          (resume_with_anchor env sts_index0 s)
        × ((is_suspended s.state ≡ true)
            ⊎ ((resume_with_anchor env sts_index0 s).0 ≡ err invalid_state))
  unfolding resume_with_anchor
  resume_with_anchor-Begins sts_index0 s = (
    if-elim {A = Result (Unit {0}) × SessionOf env}
        (Begins s s.ursk (record s.params { sts_index0 = sts_index0 })) (is_suspended s.state)
        (λ e.
          anchored-Begins s s.ursk (record s.params { sts_index0 = sts_index0 })
            (derive_session_material env (anchor s sts_index0))
            (derived-IsGiven s (anchor s sts_index0) refl refl refl))
        (λ e. (refl, refl)),
    elim (Bool-cases (is_suspended s.state)) [ inl e ↦ inl e | inr e ↦ inr (rw e) ],
  )
