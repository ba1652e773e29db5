-- ===== src/Session/Runs/Trust.antt =====
-- Which of the reported distances the consensus filter trusts.
use aliro_ccc_core.Base.{
  ◌≡◌, refl, sym, subst, ap, ◌∙◌, true, inl, inr, Bool-cases, List, [], ◌∷◌, leb, if◌then◌else◌,
}
use aliro_ccc_core.Base.Int.{ℤ, pos, negsuc}
use aliro_ccc_core.Ranging.Consensus.{
  RangeConsensusConfig, RangeConsensusFilter, Sample, reset_filter, ingest, evaluate_plausibility,
}
use aliro_ccc_core.Ranging.Consensus.Runs.{
  ingest_all, since_reset, run_length, max_one, ingest_all-run_length,
}
use aliro_ccc_core.Session.State.{RangingResult, Environment, SessionOf}
use aliro_ccc_core.Session.FinalData.{filtered, ranging_result}
use aliro_ccc_core.Session.FinalData.Reported.{IsQuiet, IsReportedFrom}
use aliro_ccc_core.Session.Runs.{Event, react, react_all}
use aliro_ccc_core.Session.Runs.Counters.{react-Outcome}

-- The results after those that were there before, each with the sample it is made of: the newest
-- first. A distance is trusted when enough samples up to its own agree, one with the next.
pub data IsTold (config : RangeConsensusConfig) (before : List RangingResult)
    : List Sample → List RangingResult → Type 0 where
  none_yet : IsTold config before [] before
  one_more :
      (x : Sample) (older : List Sample) (r : RangingResult) (results : List RangingResult)
      → r.distance ≡ x.distance
      → r.integrity.is_trusted
        ≡ leb
            (max_one config.required_consensus_count)
            (run_length config (since_reset config (x ∷ older)))
      → IsTold config before older results
      → IsTold config before (x ∷ older) (r ∷ results)

-- The report says what the filter then says.
ingest_trusts :
    (config : RangeConsensusConfig) (filter : RangeConsensusFilter) (x : Sample)
    → (ingest config filter x).1.is_trusted ≡ (ingest config filter x).0.trusted
unfolding ingest
ingest_trusts config filter x = elim (Bool-cases (evaluate_plausibility config x.distance)) [
  | inl e ↦ rw e
  | inr e ↦ rw e
]

module _ (env : Environment) where
  -- The filter has taken just the samples of the told results.
  pub record HasHistory (before : List RangingResult) (s : SessionOf env) : Type 0 where
    pub samples : List Sample
    pub ingested : s.filter ≡ ingest_all env.consensus samples
    pub told : IsTold env.consensus before samples s.results

  -- The sample that a session makes of a distance.
  abbrev sample_of : SessionOf env → ℤ → Sample
  sample_of s distance = record {
    distance = distance;
    driver_verdict = if s.final_sts_passed then pos 0 else negsuc 0;
    sts_quality_metric = s.final_sts_quality;
  }

  module _ (before : List RangingResult) where
    quiet-HasHistory :
        (s t : SessionOf env)
        → s.has_callback ≡ true
        → HasHistory before s
        → IsQuiet env s t
        → (t.has_callback ≡ true) × HasHistory before t
    quiet-HasHistory s t wanted h q = (
      q.callback ∙ wanted,
      record {
        samples = h.samples;
        ingested = elim q.filter_kept [ inl e ↦ cc (e, wanted) | inr e ↦ e ∙ h.ingested ];
        told = subst (IsTold env.consensus before h.samples) (sym q.results) h.told;
      },
    )

    ingested_next :
        (s : SessionOf env) (h : HasHistory before s) (distance : ℤ)
        → (filtered env s distance).0 ≡ ingest_all env.consensus (sample_of s distance ∷ h.samples)
    unfolding ingest_all
    ingested_next s h distance =
        ap (λ f. (ingest env.consensus f (sample_of s distance)).0) h.ingested

    trusted_next :
        (s : SessionOf env) (h : HasHistory before s) (distance : ℤ)
        → (ranging_result env s distance).integrity.is_trusted
          ≡ leb (max_one env.consensus.required_consensus_count) (
              run_length env.consensus
                (since_reset env.consensus (sample_of s distance ∷ h.samples)))
    trusted_next s h distance =
        ingest_trusts env.consensus s.filter (sample_of s distance)
        ∙ ap (λ f. f.trusted) (ingested_next s h distance)
        ∙ (ingest_all-run_length env.consensus (sample_of s distance ∷ h.samples)).0

    reported-HasHistory :
        (s t : SessionOf env)
        → HasHistory before s
        → IsReportedFrom env s t
        → (t.has_callback ≡ true) × HasHistory before t
    reported-HasHistory s t h r =
        let next = r.reported.next in
        let distance = r.reported.distance in
        let held : SessionOf env = record s {
          rx_frame_buffer = r.buffer;
          controller = r.controller;
        } in
        (
          ap (λ l. l.has_callback) next,
          record {
            samples = sample_of s distance ∷ h.samples;
            ingested = ap (λ l. l.filter) next ∙ ingested_next s h distance;
            told =
                subst (IsTold env.consensus before (sample_of s distance ∷ h.samples))
                  (sym (ap (λ l. l.results) next))
                  (one_more (sample_of s distance) h.samples (ranging_result env held distance)
                    s.results refl (trusted_next s h distance) h.told);
          },
        )

    react-HasHistory :
        (e : Event) (s : SessionOf env)
        → s.has_callback ≡ true
        → HasHistory before s
        → ((react env e s).has_callback ≡ true) × HasHistory before (react env e s)
    react-HasHistory e s wanted h = elim (react-Outcome env e s) [
      | inl q ↦ quiet-HasHistory s (react env e s) wanted h q
      | inr (c, r) ↦
          reported-HasHistory (record s { controller = c }) (react env e s)
            (record { samples = h.samples; ingested = h.ingested; told = h.told }) r
    ]

    all-HasHistory :
        (events : List Event) (s : SessionOf env)
        → s.has_callback ≡ true
        → HasHistory before s
        → HasHistory before (react_all env events s)
    unfolding react_all
    all-HasHistory [] s wanted h = h
    all-HasHistory (e ∷ es) s wanted h =
        let (wanted', h') = react-HasHistory e s wanted h in
        all-HasHistory es (react env e s) wanted' h'

  -- A session with a callback whose filter was reset, and then any run of the driver's events: the
  -- filter has taken one sample for each result reported since, with that result's distance, and
  -- nothing else; and each of these results is trusted exactly when as many samples up to its own as
  -- the configuration requires (at least 1) are plausible and agree, each with the one before it.
  pub react_all-HasHistory :
      (events : List Event) (s : SessionOf env)
      → s.has_callback ≡ true
      → s.filter ≡ reset_filter
      → HasHistory s.results (react_all env events s)
  unfolding ingest_all
  react_all-HasHistory events s wanted fresh =
      all-HasHistory s.results events s wanted
        (record { samples = []; ingested = fresh; told = none_yet })
