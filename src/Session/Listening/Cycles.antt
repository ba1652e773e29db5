-- ===== src/Session/Listening/Cycles.antt =====
-- The keys that are derived ahead are those of the session's material.
use aliro_ccc_core.Base.{
  ℕ, ◌≡◌, refl, ap, subst, sym, true, Option, none, some, take, ◌==◌, if-elim,
}
use aliro_ccc_core.Core.{Result, ok, err}
use aliro_ccc_core.Crypto.Kdf.{SlotCryptoMaterial}
use aliro_ccc_core.Frame.{PrePollPayload}
use aliro_ccc_core.Session.Cycle.{
  CycleKeys, slot_keys, response_index, final_index, with_poll, with_response, with_final,
  derive_cycle_keys,
}
use aliro_ccc_core.Session.PrePoll.{Freshness, decode_pre_poll_frame}
use aliro_ccc_core.Session.Schedule.{next_scheduled_exchange, poll_sts_index_for}
use aliro_ccc_core.Session.State.{pre_poll_listening, Environment, SessionOf, keys_of}
use aliro_ccc_core.Session.Listening.{
  is_block_parity_eligible, cycle_keys_of, warmed, refreshed, refresh_warm_keys, announced, stashed,
  process_stashed_pre_poll, listening_controller, arm_pre_poll_listening,
}
use aliro_ccc_core.Session.Listening.Kept.{SlotMaterial, material_of}

module _ (env : Environment) where
  abbrev keys_at : SlotMaterial → ℕ → Result SlotCryptoMaterial
  keys_at m = slot_keys env.crypto m.mursk m.salted_hash m.params m.responder_index

  -- The three legs have the keys of their STS indices.
  pub record IsCycle (m : SlotMaterial) (k : CycleKeys) : Type 0 where
    pub poll_leg : keys_at m k.poll_sts_index ≡ ok k.poll
    pub response_leg :
        keys_at m (
          response_index env.crypto m.mursk m.salted_hash m.params m.responder_index
            k.poll_sts_index)
        ≡ ok k.response
    pub final_leg :
        keys_at m
          (final_index env.crypto m.mursk m.salted_hash m.params m.responder_index k.poll_sts_index)
        ≡ ok k.final_

module _ (env : Environment) (m : SlotMaterial) where
  final_ok :
      (out : CycleKeys) (r : Result SlotCryptoMaterial) (k : CycleKeys)
      → with_final env.crypto m.mursk m.salted_hash m.params m.responder_index out r ≡ (ok tt, k)
      → (leg : SlotCryptoMaterial) × (r ≡ ok leg) × (k ≡ record out { final_ = leg })
  final_ok out (err e) k h = cc (ap (λ p. p.0) h)
  final_ok out (ok leg) k h = (leg, refl, sym (ap (λ p. p.1) h))

  abbrev IsCycleAt : ℕ → CycleKeys → Type 0
  IsCycleAt poll k = IsCycle env m k × (k.poll_sts_index ≡ poll)

  response_ok :
      (poll : ℕ) (out : CycleKeys) (first : SlotCryptoMaterial) (r : Result SlotCryptoMaterial)
      (k : CycleKeys)
      → keys_at env m poll ≡ ok first
      → keys_at env m
          (response_index env.crypto m.mursk m.salted_hash m.params m.responder_index poll)
        ≡ r
      → with_response env.crypto m.mursk m.salted_hash m.params m.responder_index poll
          (record out { poll_sts_index = poll; poll = first })
          r
        ≡ (ok tt, k)
      → IsCycleAt poll k
  response_ok poll out first (err e) k e1 e2 h = cc (ap (λ p. p.0) h)
  response_ok poll out first (ok leg) k e1 e2 h =
      let (last, e3, shape) =
        final_ok (record out { poll_sts_index = poll; poll = first; response = leg })
          (keys_at env m
            (final_index env.crypto m.mursk m.salted_hash m.params m.responder_index poll))
          k h in
      subst (IsCycleAt poll) (sym shape)
        (record { poll_leg = e1; response_leg = e2; final_leg = e3 }, refl)

  poll_ok :
      (poll : ℕ) (out : CycleKeys) (r : Result SlotCryptoMaterial) (k : CycleKeys)
      → keys_at env m poll ≡ r
      → with_poll env.crypto m.mursk m.salted_hash m.params m.responder_index poll
          (record out { poll_sts_index = poll })
          r
        ≡ (ok tt, k)
      → IsCycleAt poll k
  poll_ok poll out (err e) k e1 h = cc (ap (λ p. p.0) h)
  poll_ok poll out (ok leg) k e1 h =
      response_ok poll out leg
        (keys_at env m
          (response_index env.crypto m.mursk m.salted_hash m.params m.responder_index poll))
        k e1 refl h

-- What `deriveCycleKeys` leaves where it succeeds are the keys of the three legs.
pub cycle_keys_of-IsCycle :
    (env : Environment) (s : SessionOf env) (poll : ℕ) (out k : CycleKeys)
    → cycle_keys_of env s poll out ≡ (ok tt, k)
    → IsCycle env (material_of s) k × (k.poll_sts_index ≡ poll)
unfolding derive_cycle_keys
cycle_keys_of-IsCycle env s poll out k h =
    poll_ok env (material_of s) poll out (keys_at env (material_of s) poll) k refl h

module _ (env : Environment) where
  -- Keys that are valid are those of the material.
  abbrev pub IsWarm : SessionOf env → Type 0
  IsWarm s = s.warm_valid ≡ true → IsCycle env (material_of s) s.warm

  warmed-IsWarm :
      (s : SessionOf env) (poll : ℕ) (r : Result (Unit {0}) × CycleKeys)
      → cycle_keys_of env s poll s.warm ≡ r
      → IsWarm (warmed env s r)
  warmed-IsWarm s poll (ok done, k) e v = (cycle_keys_of-IsCycle env s poll s.warm k e).0
  warmed-IsWarm s poll (err e', k) e v = cc

  refreshed-IsWarm : (s : SessionOf env) (next : Option (ℕ × ℕ)) → IsWarm (refreshed env s next)
  refreshed-IsWarm s none = λ v. cc
  refreshed-IsWarm s (some (block, round)) =
      let poll = poll_sts_index_for s.params block round in
      warmed-IsWarm s poll (cycle_keys_of env s poll s.warm) refl

  pub refresh_warm_keys-IsWarm : (s : SessionOf env) → IsWarm (refresh_warm_keys env s)
  unfolding refresh_warm_keys
  refresh_warm_keys-IsWarm s =
      refreshed-IsWarm s (next_scheduled_exchange s.params s.current_block s.current_round)

  stashed-IsWarm :
      (s : SessionOf env) (r : Result PrePollPayload × Freshness)
      → IsWarm s
      → IsWarm (stashed env s r)
  stashed-IsWarm s (err e, f) w = λ v. cc
  stashed-IsWarm s (ok p, f) w =
      if-elim {A = SessionOf env} IsWarm (is_block_parity_eligible s.node_config p.ranging_block)
        (λ e. refresh_warm_keys-IsWarm (announced env s f p)) (λ e. w)

  pub process_stashed_pre_poll-IsWarm :
      (s : SessionOf env) → IsWarm s → IsWarm (process_stashed_pre_poll env s)
  unfolding process_stashed_pre_poll
  process_stashed_pre_poll-IsWarm s w =
      if-elim {A = SessionOf env} IsWarm (s.stash_len == 0) (λ e. w)
        (λ e.
          stashed-IsWarm (record s { stash_len = 0 })
            (decode_pre_poll_frame env.crypto (keys_of s) s.freshness
              (take s.stash_len s.stash_frame))
            w)

  pub arm_pre_poll_listening-IsWarm :
      (s : SessionOf env) → IsWarm s → IsWarm (arm_pre_poll_listening env s)
  unfolding arm_pre_poll_listening
  arm_pre_poll_listening-IsWarm s w =
      process_stashed_pre_poll-IsWarm
        (record s {
          controller = listening_controller env s.controller;
          state = pre_poll_listening;
        })
        w
