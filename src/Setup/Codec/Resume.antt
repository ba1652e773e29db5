-- ===== src/Setup/Codec/Resume.antt =====
-- What a resume response sets.
use aliro_ccc_core.Base.{
  ℕ, ◌≡◌, refl, ap, subst, arith, true, false, not, ◌||◌, Option, none, some, List, [], ◌∷◌, length,
  ◌==◌, if-elim,
}
use aliro_ccc_core.Base.Words.{Bytes, read_be32, byte_at}
use aliro_ccc_core.Core.{Result, ok, err}
use aliro_ccc_core.Setup.{
  AttributeTag, status, sts_index0, uwb_time0, unlisted, tag_of, config_id, pulse_shape_combo,
  session_id, channel_bitmask, ran_multiplier, slot_bitmask, sync_code_index_bitmask,
  sync_code_index, hopping_config_bitmask, chaps_per_slot, num_responders, slots_per_round,
  hop_mode_key, mac_mode, vendor_specific,
}
use aliro_ccc_core.Setup.Tlv.{TlvElement, parse_tlv_stream, read_be64}
use aliro_ccc_core.Setup.Codec.{
  Outcome, after, for_each, sized, with_elements, ResumeAnchor, handle_resume, require_anchor,
  parse_resume_response,
}

-- The value that a list of elements gives to an attribute: that of its last element.
abbrev pub sts_of : AttributeTag → Bytes → Option ℕ → Option ℕ
sts_of sts_index0 value before = some (read_be32 value 0)
sts_of _ value before = before

abbrev pub time_of : AttributeTag → Bytes → Option ℕ → Option ℕ
time_of uwb_time0 value before = some (read_be64 value 0)
time_of _ value before = before

pub last_of : (AttributeTag → Bytes → Option ℕ → Option ℕ) → List TlvElement → Option ℕ → Option ℕ
last_of pick [] before = before
last_of pick (e ∷ es) before = last_of pick es (pick (tag_of e.tag) e.value before)

record Agrees (r : ResumeAnchor) (sts time : Option ℕ) : Type 0 where
  of_sts : r.have_sts ≡ true → sts ≡ some r.sts_index0
  of_time : r.have_time ≡ true → time ≡ some r.time0_us

-- The state behind a step that succeeds.
IsOk : Outcome ResumeAnchor → (ResumeAnchor → Type 0) → Type 0
IsOk (ok u, r) P = P r
IsOk (err e, r) P = Unit {0}

after-IsOk :
    (m : Outcome ResumeAnchor) (k : ResumeAnchor → Outcome ResumeAnchor)
    (P Q : ResumeAnchor → Type 0)
    → IsOk m P
    → ((r : ResumeAnchor) → P r → IsOk (k r) Q)
    → IsOk (after m k) Q
unfolding IsOk
after-IsOk (ok u, r) k P Q h step = step r h
after-IsOk (err e, r) k P Q h step = tt

sized-IsOk :
    (n : ℕ) (value : Bytes) (r : ResumeAnchor) (next : Outcome ResumeAnchor)
    (P : ResumeAnchor → Type 0)
    → IsOk next P
    → IsOk (sized n value r next) P
unfolding IsOk
sized-IsOk n value r next P h =
    if-elim (λ (m : Outcome ResumeAnchor). IsOk m P) (length value == n) (λ e. h) (λ e. tt)

handle_resume-Agrees :
    (tag : AttributeTag) (value : Bytes) (r : ResumeAnchor) (sts time : Option ℕ)
    → Agrees r sts time
    → IsOk
        (handle_resume tag value r)
        (λ q. Agrees q (sts_of tag value sts) (time_of tag value time))
unfolding handle_resume IsOk
handle_resume-Agrees sts_index0 value r sts time h =
    sized-IsOk 4 value r _ _ (record { of_sts = λ e. refl; of_time = h.of_time })
handle_resume-Agrees uwb_time0 value r sts time h =
    sized-IsOk 8 value r _ _ (record { of_sts = h.of_sts; of_time = λ e. refl })
handle_resume-Agrees status value r sts time h = sized-IsOk 1 value r _ _ (
    if-elim (λ (m : Outcome ResumeAnchor). IsOk m (λ q. Agrees q sts time)) (byte_at value 0 == 0)
      (λ e. h) (λ e. tt))
handle_resume-Agrees config_id value r sts time h = h
handle_resume-Agrees pulse_shape_combo value r sts time h = h
handle_resume-Agrees session_id value r sts time h = h
handle_resume-Agrees channel_bitmask value r sts time h = h
handle_resume-Agrees ran_multiplier value r sts time h = h
handle_resume-Agrees slot_bitmask value r sts time h = h
handle_resume-Agrees sync_code_index_bitmask value r sts time h = h
handle_resume-Agrees sync_code_index value r sts time h = h
handle_resume-Agrees hopping_config_bitmask value r sts time h = h
handle_resume-Agrees chaps_per_slot value r sts time h = h
handle_resume-Agrees num_responders value r sts time h = h
handle_resume-Agrees slots_per_round value r sts time h = h
handle_resume-Agrees hop_mode_key value r sts time h = h
handle_resume-Agrees mac_mode value r sts time h = h
handle_resume-Agrees vendor_specific value r sts time h = h
handle_resume-Agrees (unlisted n) value r sts time h = h

for_each-Agrees :
    (es : List TlvElement) (r : ResumeAnchor) (sts time : Option ℕ)
    → Agrees r sts time
    → IsOk
        (for_each (λ elem. handle_resume (tag_of elem.tag) elem.value) es r)
        (λ q. Agrees q (last_of sts_of es sts) (last_of time_of es time))
unfolding for_each last_of IsOk
for_each-Agrees [] r sts time h = h
for_each-Agrees (e ∷ es) r sts time h =
    after-IsOk (handle_resume (tag_of e.tag) e.value r)
      (for_each (λ elem. handle_resume (tag_of elem.tag) elem.value) es)
      (λ q. Agrees q (sts_of (tag_of e.tag) e.value sts) (time_of (tag_of e.tag) e.value time))
      (λ q. Agrees q (last_of sts_of (e ∷ es) sts) (last_of time_of (e ∷ es) time))
      (handle_resume-Agrees (tag_of e.tag) e.value r sts time h)
      (λ q hq.
        for_each-Agrees es q (sts_of (tag_of e.tag) e.value sts)
          (time_of (tag_of e.tag) e.value time) hq)

require_anchor-IsOk :
    (r : ResumeAnchor) (sts time : Option ℕ)
    → Agrees r sts time
    → IsOk (require_anchor r) (λ q. (sts ≡ some q.sts_index0) × (time ≡ some q.time0_us))
unfolding IsOk
require_anchor-IsOk r sts time h =
    if-elim
      (λ (m : Outcome ResumeAnchor).
        IsOk m (λ q. (sts ≡ some q.sts_index0) × (time ≡ some q.time0_us)))
      (not r.have_sts || not r.have_time) (λ e. tt)
      (λ e. (h.of_sts (ground arith), h.of_time (ground arith)))

-- A resume response that is accepted has an STS index and a time, and the out parameters become
-- those of its last elements of either kind.
pub parse_resume_response_lem :
    (payload : Bytes) (sts time : ℕ) (r : ResumeAnchor)
    → parse_resume_response payload sts time ≡ (ok tt, r)
    → (es : List TlvElement) × (parse_tlv_stream payload ≡ ok es)
      × (last_of sts_of es none ≡ some r.sts_index0)
      × (last_of time_of es none ≡ some r.time0_us)
unfolding parse_resume_response IsOk
parse_resume_response_lem payload sts time r e = accepted (parse_tlv_stream payload) refl e
  where
    start : ResumeAnchor
    start = record { sts_index0 = sts; time0_us = time; have_sts = false; have_time = false }

    use_ok :
        (m : Outcome ResumeAnchor) (P : ResumeAnchor → Type 0) → IsOk m P → m ≡ (ok tt, r) → P r
    use_ok m P h e = subst (λ (x : Outcome ResumeAnchor). IsOk x P) e h

    accepted :
        (m : Result (List TlvElement))
        → parse_tlv_stream payload ≡ m
        → with_elements m start (λ elements.
          after
            (for_each (λ elem. handle_resume (tag_of elem.tag) elem.value) elements start)
            require_anchor)
          ≡ (ok tt, r)
        → (es : List TlvElement) × (parse_tlv_stream payload ≡ ok es)
          × (last_of sts_of es none ≡ some r.sts_index0)
          × (last_of time_of es none ≡ some r.time0_us)
    accepted (err x) p e = cc (ap (λ (x : Outcome ResumeAnchor). x.0) e)
    accepted (ok es) p e =
        let found =
          use_ok
            (after (for_each (λ elem. handle_resume (tag_of elem.tag) elem.value) es start)
              require_anchor)
            (λ q.
              (last_of sts_of es none ≡ some q.sts_index0)
              × (last_of time_of es none ≡ some q.time0_us))
            (after-IsOk (for_each (λ elem. handle_resume (tag_of elem.tag) elem.value) es start)
              require_anchor (λ q. Agrees q (last_of sts_of es none) (last_of time_of es none))
              (λ q.
                (last_of sts_of es none ≡ some q.sts_index0)
                × (last_of time_of es none ≡ some q.time0_us))
              (for_each-Agrees es start none none
                (record { of_sts = λ h. cc (h); of_time = λ h. cc (h) }))
              (λ q hq. require_anchor-IsOk q (last_of sts_of es none) (last_of time_of es none) hq))
            e in
        (es, p, found.0, found.1)
