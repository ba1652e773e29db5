-- ===== src/Session/PrePoll/Replay.antt =====
-- No Pre-Poll frame is accepted twice.
use aliro_ccc_core.Base.{
  ◌+◌, ◌≤◌, ◌≡◌, refl, sym, ap, arith, Bool, true, false, not, ◌&&◌, ◌⊎◌, List, [], ◌∷◌, length,
  ltb, ◌==◌, if-elim, inl, inr,
}
use aliro_ccc_core.Base.Words.{Bytes}
use aliro_ccc_core.Core.{Result, ok, err, malformed_frame}
use aliro_ccc_core.Crypto.Provider.{CryptoProvider}
use aliro_ccc_core.Frame.{MacHeader, PrePollPayload, decode_header}
use aliro_ccc_core.Session.PrePoll.{
  Freshness, SessionKeys, header_ok, is_stale, not_ahead, accept_pre_poll, open_pre_poll,
  with_header, decode_pre_poll_frame,
}

not-false : (b : Bool) → not b ≡ false → b ≡ true
not-false true e = refl
not-false false e = cc

-- The counter that is remembered never falls.
record IsLater (s t : Freshness) : Type 0 where
  kept : s.has_received_pre_poll_counter ≡ true → t.has_received_pre_poll_counter ≡ true
  counter :
      s.has_received_pre_poll_counter ≡ true → s.last_pre_poll_counter ≤ t.last_pre_poll_counter

-- What the acceptance of a frame says: its header is for this session and fresh, its payload opens
-- under the session's key and names the session, its STS index is ahead of the last one, and both
-- are remembered.
pub record IsAccepted (crypto : CryptoProvider) (keys : SessionKeys) (s : Freshness) (frame : Bytes)
    (p : PrePollPayload) (t : Freshness) : Type 0 where
  pub header : MacHeader
  pub decoded : decode_header frame ≡ ok header
  pub for_us : header_ok keys header ≡ true
  pub fresh : is_stale s header ≡ false
  pub opened : open_pre_poll crypto keys frame header ≡ ok p
  pub session : p.session_id ≡ keys.session_id
  pub ahead :
      (s.has_pre_poll_sts_index && not_ahead p.poll_sts_index s.last_pre_poll_sts_index) ≡ false
  pub next : t ≡ record {
    last_pre_poll_counter = header.frame_counter;
    has_received_pre_poll_counter = true;
    last_pre_poll_sts_index = p.poll_sts_index;
    has_pre_poll_sts_index = true;
  }

module _ (crypto : CryptoProvider) (keys : SessionKeys) where
  -- The state after some frames.
  pub after_frames : Freshness → List Bytes → Freshness
  after_frames s [] = s
  after_frames s (frame ∷ frames) =
      after_frames (decode_pre_poll_frame crypto keys s frame).1 frames

  same : (s : Freshness) → IsLater s s
  same s = record { kept = λ h. h; counter = λ h. omega arith }

  accept-IsLater :
      (s : Freshness) (h : MacHeader) (r : Result PrePollPayload)
      → is_stale s h ≡ false
      → IsLater s (accept_pre_poll keys s h r).1
  accept-IsLater s h (err e) fresh = same s
  accept-IsLater s h (ok p) fresh =
      if-elim (λ (r : Result PrePollPayload × Freshness). IsLater s r.1)
        (not (p.session_id == keys.session_id)) (λ e. same s)
        λ e.
          if-elim (λ (r : Result PrePollPayload × Freshness). IsLater s r.1)
            (s.has_pre_poll_sts_index && not_ahead p.poll_sts_index s.last_pre_poll_sts_index)
            (λ e'. same s) λ e'. record { kept = λ h. refl; counter = λ got. ground arith }

  decode-IsLater :
      (s : Freshness) (frame : Bytes) → IsLater s (decode_pre_poll_frame crypto keys s frame).1
  unfolding decode_pre_poll_frame
  decode-IsLater s frame = with_header-IsLater (decode_header frame)
    where
      with_header-IsLater : (r : Result MacHeader) → IsLater s (with_header crypto keys s frame r).1
      with_header-IsLater (err e) = same s
      with_header-IsLater (ok h) =
          if-elim (λ (r : Result PrePollPayload × Freshness). IsLater s r.1)
            (not (header_ok keys h)) (λ e. same s)
            λ e.
              if-elim (λ (r : Result PrePollPayload × Freshness). IsLater s r.1) (is_stale s h)
                (λ e'. same s)
                λ fresh.
                  if-elim (λ (r : Result PrePollPayload × Freshness). IsLater s r.1)
                    (ltb (length frame) (23 + (h.payload_length + 8))) (λ e'. same s)
                    (λ e'. accept-IsLater s h (open_pre_poll crypto keys frame h) fresh)

  after_frames-IsLater : (s : Freshness) (frames : List Bytes) → IsLater s (after_frames s frames)
  unfolding after_frames
  after_frames-IsLater s [] = same s
  after_frames-IsLater s (frame ∷ frames) =
      let first = decode-IsLater s frame in
      let rest = after_frames-IsLater (decode_pre_poll_frame crypto keys s frame).1 frames in
      record {
        kept = λ h. rest.kept (first.kept h);
        counter = λ h. omega (arith, first.counter h, rest.counter (first.kept h));
      }

  abbrev pub Verdict : Freshness → Bytes → Result PrePollPayload → Freshness → Type 0
  Verdict s frame r t =
      ((p : PrePollPayload) × (r ≡ ok p) × IsAccepted crypto keys s frame p t)
      ⊎ ((r ≡ err malformed_frame) × (t ≡ s))

  -- A frame is accepted only if its header is for this session and has a fresh counter, its payload
  -- opens under the session's key and names the session, and its STS index is ahead; otherwise the
  -- error is a malformed frame and nothing is remembered.
  pub decode_pre_poll_frame_lem :
      (s : Freshness) (frame : Bytes) (r : Result PrePollPayload) (t : Freshness)
      → decode_pre_poll_frame crypto keys s frame ≡ (r, t)
      → Verdict s frame r t
  unfolding decode_pre_poll_frame
  decode_pre_poll_frame_lem s frame r t e = with_header_lem (decode_header frame) refl e
    where
      refused :
          ◌≡◌ {A = Result PrePollPayload × Freshness} (err malformed_frame, s) (r, t)
          → Verdict s frame r t
      refused e = inr (sym (ap (λ x. x.0) e), sym (ap (λ x. x.1) e))

      accept_lem :
          (h : MacHeader)
          → decode_header frame ≡ ok h
          → header_ok keys h ≡ true
          → is_stale s h ≡ false
          → (o : Result PrePollPayload) → open_pre_poll crypto keys frame h ≡ o
          → accept_pre_poll keys s h o ≡ (r, t)
          → Verdict s frame r t
      accept_lem h d good fresh (err x) o = refused
      accept_lem h d good fresh (ok p) o =
          if-elim (λ (x : Result PrePollPayload × Freshness). x ≡ (r, t) → Verdict s frame r t)
            (not (p.session_id == keys.session_id)) (λ b. refused)
            λ b.
              if-elim (λ (x : Result PrePollPayload × Freshness). x ≡ (r, t) → Verdict s frame r t)
                (s.has_pre_poll_sts_index && not_ahead p.poll_sts_index s.last_pre_poll_sts_index)
                (λ b'. refused)
                λ b' e'. inl (
                  p,
                  sym (ap (λ x. x.0) e'),
                  record {
                    header = h;
                    decoded = d;
                    for_us = good;
                    fresh = fresh;
                    opened = o;
                    session = ground arith;
                    ahead = b';
                    next = sym (ap (λ x. x.1) e');
                  },
                )

      with_header_lem :
          (m : Result MacHeader)
          → decode_header frame ≡ m
          → with_header crypto keys s frame m ≡ (r, t)
          → Verdict s frame r t
      with_header_lem (err x) d = refused
      with_header_lem (ok h) d =
          if-elim (λ (x : Result PrePollPayload × Freshness). x ≡ (r, t) → Verdict s frame r t)
            (not (header_ok keys h)) (λ b. refused)
            λ b.
              if-elim (λ (x : Result PrePollPayload × Freshness). x ≡ (r, t) → Verdict s frame r t)
                (is_stale s h) (λ b'. refused)
                λ fresh.
                  if-elim
                    (λ (x : Result PrePollPayload × Freshness). x ≡ (r, t) → Verdict s frame r t)
                    (ltb (length frame) (23 + (h.payload_length + 8))) (λ b'. refused)
                    (λ b'.
                      accept_lem h d (not-false (header_ok keys h) b) fresh
                        (open_pre_poll crypto keys frame h) refl)

  stale_refused :
      (s : Freshness) (frame : Bytes) (h : MacHeader)
      → decode_header frame ≡ ok h
      → is_stale s h ≡ true
      → header_ok keys h ≡ true
      → decode_pre_poll_frame crypto keys s frame ≡ (err malformed_frame, s)
  unfolding decode_pre_poll_frame
  stale_refused s frame h d old good = rw (d, old, good)

  stale_later :
      (s t : Freshness) (h : MacHeader)
      → s.has_received_pre_poll_counter ≡ true
      → s.last_pre_poll_counter ≡ h.frame_counter
      → IsLater s t
      → is_stale t h ≡ true
  stale_later s t h has last later = rw (later.kept has) (ground (arith, later.counter has, last))

  -- A frame that was accepted is refused ever after: whatever frames come in between, accepted or
  -- not, the same frame gives an error and leaves the state as it is.
  pub decode_pre_poll_frame_replay :
      (s : Freshness) (frame : Bytes) (p : PrePollPayload) (t : Freshness) (frames : List Bytes)
      → decode_pre_poll_frame crypto keys s frame ≡ (ok p, t)
      → decode_pre_poll_frame crypto keys (after_frames t frames) frame
        ≡ (err malformed_frame, after_frames t frames)
  decode_pre_poll_frame_replay s frame p t frames e =
      elim (decode_pre_poll_frame_lem s frame (ok p) t e) [
        | inl accepted ↦
            let a = accepted.2 in
            stale_refused (after_frames t frames) frame a.header a.decoded
              (stale_later t (after_frames t frames) a.header
                (ap (λ (x : Freshness). x.has_received_pre_poll_counter) a.next)
                (ap (λ (x : Freshness). x.last_pre_poll_counter) a.next)
                (after_frames-IsLater t frames))
              a.for_us
        | inr refusal ↦ cc (refusal.0)
      ]
