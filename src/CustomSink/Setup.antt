-- ===== src/CustomSink/Setup.antt =====
-- src/g3log/sinks/custom_sink.cpp: the sinks of a new worker after `InitG3Logging`.
use myg3log.Base.{
  ℕ, ◌≡◌, refl, ◌∙◌, ap, arith, List, [], ◌∷◌, ◌++◌, none, some, if◌then◌else◌, Bool-cases, inl,
  inr, append_assoc, Option, Pointwise, ◌⊎◌, ◌≢◌, map, false, true, sym,
}
use myg3log.Levels.{Level, info, warning, error}
use myg3log.Active.Draining.{waiting, spawn_and_wait_lem}
use myg3log.Base.Text.{Text}
use myg3log.Active.{Active}
use myg3log.FileName.{prefix_sanity_fix}
use myg3log.FileSink.{FileSink, LinkCall, Construction, aborted, constructed, construct}
use myg3log.FileSink.Opening.{construct-aborted}
use myg3log.Sink.{Sink}
use myg3log.LogWorker.{
  Worker, Job, Adding, aborts, returns, add_file_sink, add_wrapped_sink, add_default_logger,
  perform_job, perform_live, add_sink_job,
}
use myg3log.Logger.{Logger, Build, initialize_logging, install_once, save_first, save_to, put}
use myg3log.CustomSink.{Flags, init_sinks, init_threshold, init_g3_logging}

module _ (build : Build) {R : Type 0} where
  abbrev pub with_sink : Sink R → Worker R → Worker R
  with_sink sink w = record w { sinks = w.sinks ++ sink ∷ [] }

  add_one :
      (sink : Sink R) (w : Worker R)
      → w.exited ≡ none
      → add_wrapped_sink build.env sink (waiting [], w) ≡ some (waiting [], with_sink sink w)
  unfolding add_wrapped_sink perform_job perform_live
  add_one sink w e =
      spawn_and_wait_lem (perform_job build.env) [] (add_sink_job sink) w
      ∙ ap (λ x. some (waiting [], x))
          (let s : perform_job build.env (add_sink_job sink) w ≡ with_sink sink w = ground arith in
            s)

  becomes_active :
      (w : ℕ) (s : Logger R)
      → s.logger_instance ≡ none
      → ((initialize_logging build (some w) s).logger_instance ≡ some w)
        × ((initialize_logging build (some w) s).control ≡ s.control)
  unfolding initialize_logging install_once save_first save_to
  becomes_active w s h = elim (Bool-cases s.initialized) [
    | inl b ↦ ground arith
    | inr b ↦ ground arith
  ]

construction_cases :
    (c : Construction)
    → (c ≡ aborted) ⊎ ((s : FileSink) × (links : List LinkCall) × (c ≡ constructed s links))
construction_cases aborted = inl refl
construction_cases (constructed s links) = inr (s, links, refl)

module _ (build : Build) {R : Type 0} (flags : Flags) (console : Sink R)
    (file_sink : FileSink → Sink R) (now : ℕ) (prefix : Text) where
  -- The file sink that the constructor makes for a level.
  abbrev pub Made : Level → FileSink → Type 0
  Made level s =
      (links : List LinkCall) × (construct build.env now flags.log_link prefix flags.log_dir level
          []
        ≡ constructed s links)

  constructed_at : (level : Level) → prefix_sanity_fix prefix ≢ [] → (s : FileSink) × Made level s
  constructed_at level ne =
      elim (construction_cases
        (construct build.env now flags.log_link prefix flags.log_dir level [])) [
          | inl e ↦ absurd (
              ne (
                (construct-aborted build.env now flags.log_link prefix flags.log_dir level []).0 e))
          | inr (s, links, e) ↦ (s, (links, e))
        ]

  abbrev add : Level → Active (Job R) × Worker R → Option (Adding R)
  add level bg = add_file_sink build.env now flags.log_link file_sink prefix flags.log_dir level bg

  add_constructed :
      (level : Level) (s : FileSink) (w : Worker R)
      → Made level s
      → w.exited ≡ none
      → add level (waiting [], w) ≡ some (returns (waiting [], with_sink build (file_sink s) w))
  unfolding add_file_sink
  add_constructed level s w (links, m) e = ground (arith, m, add_one build (file_sink s) w e)

  abbrev three : FileSink → FileSink → FileSink → Worker R → Worker R
  three e w i worker = with_sink build (file_sink i) (
      with_sink build (file_sink w)
        (with_sink build (file_sink e) (with_sink build console worker)))

  sinks_only :
      (worker : Worker R)
      → worker.exited ≡ none
      → flags.logtostderr ≡ true
      → init_sinks build flags console file_sink now prefix (waiting [], worker)
        ≡ some (returns (waiting [], with_sink build console worker))
  unfolding init_sinks
  sinks_only worker e only = ground (arith, only, add_one build console worker e)

  sinks_aborted :
      (worker : Worker R)
      → worker.exited ≡ none
      → flags.logtostderr ≡ false
      → construct build.env now flags.log_link prefix flags.log_dir error [] ≡ aborted
      → init_sinks build flags console file_sink now prefix (waiting [], worker) ≡ some aborts
  unfolding init_sinks add_default_logger add_file_sink
  sinks_aborted worker e both a = ground (arith, both, add_one build console worker e, a)

  sinks_three :
      (worker : Worker R) (s1 s2 s3 : FileSink)
      → worker.exited ≡ none
      → flags.logtostderr ≡ false
      → Made error s1
      → Made warning s2
      → Made info s3
      → init_sinks build flags console file_sink now prefix (waiting [], worker)
        ≡ some (returns (waiting [], three s1 s2 s3 worker))
  unfolding init_sinks add_default_logger
  sinks_three worker s1 s2 s3 e both m1 m2 m3 =
      let w0 = with_sink build console worker in
      let w1 = with_sink build (file_sink s1) w0 in
      let w2 = with_sink build (file_sink s2) w1 in
      rw (add_one build console worker e, both, init_sinks)
        (rw (add_constructed error s1 w0 m1 e, add_constructed warning s2 w1 m2 e)
          (add_constructed info s3 w2 m3 e))

  three_in_order :
      (s1 s2 s3 : FileSink)
      → flags.logtostderr ≡ false
      → Made error s1
      → Made warning s2
      → Made info s3
      → Pointwise Made
          (if flags.logtostderr then [] else error ∷ warning ∷ info ∷ [])
          (s1 ∷ s2 ∷ s3 ∷ [])
  three_in_order s1 s2 s3 both m1 m2 m3 = rw both (m1, (m2, (m3, tt)))

  finish :
      (w : ℕ) (worker worker' : Worker R) (s : Logger R)
      → s.workers w ≡ waiting []
      → init_sinks build flags console file_sink now prefix (waiting [], worker)
        ≡ some (returns (waiting [], worker'))
      → init_g3_logging build flags console file_sink now prefix w worker s
        ≡ some (
            some (
              init_threshold flags,
              worker',
              initialize_logging build
                  (some w)
                  (record s { workers = put s.workers w (waiting []) }),
            ))
  unfolding init_g3_logging
  finish w worker worker' s q run = rw (q, run, init_g3_logging) refl

  stop :
      (w : ℕ) (worker : Worker R) (s : Logger R)
      → s.workers w ≡ waiting []
      → init_sinks build flags console file_sink now prefix (waiting [], worker) ≡ some aborts
      → init_g3_logging build flags console file_sink now prefix w worker s ≡ some none
  unfolding init_g3_logging
  stop w worker s q run = rw (q, run, init_g3_logging) refl

  -- `InitG3Logging`, while no logger is active, for a worker with nothing in its queue in a process
  -- that has not ended. If nothing is left of the prefix once it is cleaned up, and not only the
  -- standard error is wanted, it aborts. Otherwise it returns: the worker is active, and it has
  -- behind its sinks the console sink and, unless only the standard error is wanted, the file
  -- sinks that the constructor makes for ERROR, WARNING and INFO, in this order.
  pub init_g3_logging_lem :
      (w : ℕ) (worker : Worker R) (s : Logger R)
      → worker.exited ≡ none
      → s.workers w ≡ waiting []
      → s.logger_instance ≡ none
      → ((flags.logtostderr ≡ false)
          × (prefix_sanity_fix prefix ≡ [])
          × (init_g3_logging build flags console file_sink now prefix w worker s ≡ some none))
        ⊎ ((worker' : Worker R) × (s' : Logger R) × (files : List FileSink) × (init_g3_logging build
                flags console file_sink now prefix w worker s
              ≡ some (some (init_threshold flags, worker', s')))
            × Pointwise Made (if flags.logtostderr then [] else error ∷ warning ∷ info ∷ []) files
            × (worker'.sinks ≡ worker.sinks ++ console ∷ map file_sink files)
            × (s'.logger_instance ≡ some w)
            × (s'.control ≡ s.control))
  init_g3_logging_lem w worker s e q h =
      let s0 : Logger R = record s { workers = put s.workers w (waiting []) } in
      let s' = initialize_logging build (some w) s0 in
      let (active, control) = becomes_active build w s0 h in
      elim (Bool-cases flags.logtostderr) [
        | inl only ↦ inr (
          with_sink build console worker,
          s',
          [],
          finish w worker _ s q (sinks_only worker e only),
          rw only tt,
          refl,
          active,
          control,
        )
        | inr both ↦
            elim (construction_cases
              (construct build.env now flags.log_link prefix flags.log_dir error [])) [
                | inl a ↦ inl (
                  both,
                  (construct-aborted build.env now flags.log_link prefix flags.log_dir error []).0
                      a,
                  stop w worker s q (sinks_aborted worker e both a),
                )
                | inr (s1, links, m1) ↦
                    let ne : prefix_sanity_fix prefix ≢ [] = λ p.
                      let clash : constructed s1 links ≡ aborted =
                        sym m1
                        ∙ (construct-aborted build.env now flags.log_link prefix flags.log_dir error
                              []).1
                            p in
                      cc in
                    let (s2, m2) = constructed_at warning ne in
                    let (s3, m3) = constructed_at info ne in
                    inr (
                      three s1 s2 s3 worker,
                      s',
                      s1 ∷ s2 ∷ s3 ∷ [],
                      finish w worker _ s q (sinks_three worker s1 s2 s3 e both (links, m1) m2 m3),
                      three_in_order s1 s2 s3 both (links, m1) m2 m3,
                      simp append_assoc,
                      active,
                      control,
                    )
              ]
      ]
