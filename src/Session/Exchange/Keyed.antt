-- ===== src/Session/Exchange/Keyed.antt =====
-- An exchange runs under the keys of the session's material.
use aliro_ccc_core.Base.{ℕ, ◌≡◌, refl, sym, ap, subst, Bool, true, false, not, ◌&&◌, if-elim}
use aliro_ccc_core.Base.Words.{Bytes}
use aliro_ccc_core.Core.{Result, ok, err}
use aliro_ccc_core.Frame.{MacHeader, decode_header}
use aliro_ccc_core.Transceiver.Events.{RxSuccessEvent}
use aliro_ccc_core.Session.Cycle.{CycleKeys}
use aliro_ccc_core.Session.PrePoll.{header_ok, is_stale}
use aliro_ccc_core.Session.State.{
  SessionState, awaiting_poll, transmitting_response, awaiting_final, awaiting_final_data,
  Environment, SessionOf, keys_of,
}
use aliro_ccc_core.Session.Listening.{cycle_keys_of, refresh_warm_keys, arm_pre_poll_listening}
use aliro_ccc_core.Session.Listening.Kept.{
  Kept, kept, arm_pre_poll_listening-kept, refresh_warm_keys-kept, process_stashed_pre_poll-kept,
}
use aliro_ccc_core.Session.Listening.Cycles.{
  IsCycle, IsWarm, cycle_keys_of-IsCycle, refresh_warm_keys-IsWarm, arm_pre_poll_listening-IsWarm,
  process_stashed_pre_poll-IsWarm,
}
use aliro_ccc_core.Session.Exchange.Rules.{
  Warmth, Fixed, handle_pre_poll_reception_rule, handle_poll_reception_rule, transmitted_rule,
}
use aliro_ccc_core.Session.FinalData.{handle_final_data_reception}
use aliro_ccc_core.Session.FinalData.FinalRules.{handle_final_data_reception_rule}
use aliro_ccc_core.Session.Exchange.{
  final_seen, await_poll, arm_with, stash, check_header, arm_warm, handle_pre_poll_reception,
  handle_poll_reception, transmitted, handle_final_reception,
}

-- The states between a Pre-Poll and its Final-Data.
abbrev pub is_exchange : SessionState → Bool
is_exchange awaiting_poll = true
is_exchange transmitting_response = true
is_exchange awaiting_final = true
is_exchange awaiting_final_data = true
is_exchange _ = false

module _ (env : Environment) where
  -- Armed keys are those of the material, for the Poll slot that is awaited.
  abbrev pub Armed : Kept → Type 0
  Armed k =
      k.armed_keys_valid ≡ true
      → IsCycle env k.material k.armed × (k.armed_poll_sts_index ≡ k.armed.poll_sts_index)

  abbrev pub ArmedIn : Kept → Type 0
  ArmedIn k = is_exchange k.state ≡ true → Armed k

  -- Warm keys are those of the material, and in an exchange so are the armed ones.
  pub record IsKeyed (s : SessionOf env) : Type 0 where
    pub warm : IsWarm env s
    pub armed : ArmedIn (kept s)

  pub arm_pre_poll_listening-IsKeyed :
      (s : SessionOf env) → IsWarm env s → IsKeyed (arm_pre_poll_listening env s)
  arm_pre_poll_listening-IsKeyed s w = record {
    warm = arm_pre_poll_listening-IsWarm env s w;
    armed = λ v. cc (v, ap (λ k. is_exchange k.state) (arm_pre_poll_listening-kept env s));
  }

  abbrev IsWarmth : Warmth → Type 0
  IsWarmth w = w.warm_valid ≡ true → IsCycle env w.material w.warm

  check_header-IsKeyed :
      (s : SessionOf env) (r : Result MacHeader) → IsKeyed s → IsKeyed (check_header env s r)
  check_header-IsKeyed s (err e) k = record { warm = λ v. cc; armed = k.armed }
  check_header-IsKeyed s (ok h) k =
      if-elim {A = SessionOf env} IsKeyed (header_ok (keys_of s) h && not (is_stale s.freshness h))
        (λ e. k) (λ e. record { warm = λ v. cc; armed = k.armed })

  arm_warm-IsKeyed :
      (s : SessionOf env) (frame : Bytes) (time : ℕ)
      → IsWarm env s
      → s.warm_valid ≡ true
      → IsKeyed (arm_warm env frame time s)
  unfolding arm_warm
  arm_warm-IsKeyed s frame time w v =
      check_header-IsKeyed (await_poll env time (stash env frame (arm_with env s.warm s)))
        (decode_header frame) (record { warm = w; armed = λ in_exchange valid. (w v, refl) })

  booted-IsKeyed :
      (s : SessionOf env) (time poll : ℕ) (out keys : CycleKeys)
      → IsWarm env s
      → cycle_keys_of env s poll out ≡ (ok tt, keys)
      → IsKeyed (refresh_warm_keys env (await_poll env time (arm_with env keys s)))
  booted-IsKeyed s time poll out keys w h =
      let t : SessionOf env = await_poll env time (arm_with env keys s) in
      record {
        warm = refresh_warm_keys-IsWarm env t;
        armed =
            subst ArmedIn (sym (refresh_warm_keys-kept env t))
              (λ in_exchange valid. ((cycle_keys_of-IsCycle env s poll out keys h).0, refl));
      }

  abbrev KnowsWarm : Fixed → Type 0
  KnowsWarm f = IsWarmth f.warmth_kept

  pub handle_pre_poll_reception-IsKeyed :
      (event : RxSuccessEvent) (s : SessionOf env)
      → IsKeyed s
      → IsKeyed (handle_pre_poll_reception env event s)
  handle_pre_poll_reception-IsKeyed event s k =
      handle_pre_poll_reception_rule env KnowsWarm IsKeyed arm_pre_poll_listening-IsKeyed
        arm_warm-IsKeyed booted-IsKeyed event s k.warm

  pub handle_poll_reception-IsKeyed :
      (event : RxSuccessEvent) (s : SessionOf env)
      → s.state ≡ awaiting_poll
      → IsKeyed s
      → IsKeyed (handle_poll_reception env event s)
  handle_poll_reception-IsKeyed event s here k =
      handle_poll_reception_rule env KnowsWarm IsKeyed arm_pre_poll_listening-IsKeyed event s k.warm
        (λ c. record { warm = k.warm; armed = λ in_exchange. k.armed (ap is_exchange here) })

  pub transmitted-IsKeyed :
      (s : SessionOf env)
      → s.state ≡ transmitting_response
      → IsKeyed s
      → IsKeyed (transmitted env s)
  transmitted-IsKeyed s here k =
      transmitted_rule env KnowsWarm IsKeyed arm_pre_poll_listening-IsKeyed s k.warm (λ timestamp c.
        record { warm = k.warm; armed = λ in_exchange. k.armed (ap is_exchange here) })

  pub handle_final_reception-IsKeyed :
      (event : RxSuccessEvent) (s : SessionOf env)
      → s.state ≡ awaiting_final
      → IsKeyed s
      → IsKeyed (handle_final_reception env event s)
  unfolding handle_final_reception
  handle_final_reception-IsKeyed event s here k = record {
    warm = process_stashed_pre_poll-IsWarm env (final_seen env event s) k.warm;
    armed =
        subst ArmedIn (sym (process_stashed_pre_poll-kept env (final_seen env event s)))
          (λ in_exchange. k.armed (ap is_exchange here));
  }

  pub handle_final_data_reception-IsKeyed :
      (s : SessionOf env) → IsKeyed s → IsKeyed (handle_final_data_reception env s)
  handle_final_data_reception-IsKeyed s k =
      handle_final_data_reception_rule env IsWarmth IsKeyed arm_pre_poll_listening-IsKeyed s k.warm
