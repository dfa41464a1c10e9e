-- ===== src/LogWorker/Lifetime.antt =====
-- Sinks that are added, and the end of a worker that is destroyed.
use myg3log.Base.{
  ◌≡◌, refl, sym, ◌∙◌, ap, ap₂, subst, false, arith, List, [], ◌∷◌, ◌++◌, Option, none, some, map,
  append_assoc, append-nil,
}
use myg3log.Base.Text.{Text, codes}
use myg3log.Message.{LogMessage}
use myg3log.Active.{send}
use myg3log.Active.Queue.{push}
use myg3log.Active.Draining.{
  run_jobs, run_jobs-append, waiting, finished, map-sent, spawn_and_wait_lem, destroy_lem,
}
use myg3log.Sink.{Sink, destroy_sink}
use myg3log.Sink.Delivery.{LiveSink, live, with_messages}
use myg3log.FileSink.{Environment}
use myg3log.LogWorker.{
  Worker, Job, save_job, add_sink_job, clear_sinks_job, clear_sinks, perform_job, add_wrapped_sink,
  destroy_worker, send_late, default_text,
}
use myg3log.LogWorker.Fatal.{Has, outcome, saves-Has, map-destroy}

module _ {R : Type 0} where
  send_late-waiting : (js late : List (Job R)) → send_late late (waiting js) ≡ waiting (js ++ late)
  unfolding send_late send push
  send_late-waiting js [] = rw append-nil
  send_late-waiting js (j ∷ late) =
      ap (send_late late) (ap (λ q. record { mq = q; done = false }) (map-sent js j))
      ∙ send_late-waiting (js ++ j ∷ []) late
      ∙ ap waiting (append_assoc js (j ∷ []) late)

module _ (env : Environment) where
  -- The notes on the standard error behind `err`, for messages that find no sink.
  abbrev pub orphan_notes : List LogMessage → Text → Text
  orphan_notes [] err = err
  orphan_notes (m ∷ ms) err =
      orphan_notes ms
        (err ++ (codes "g3logworker has no sinks. Message: [" ++ default_text env m ++ codes "]\n"))

module _ (env : Environment) {R : Type 0} where
  add_sinks :
      (sink : Sink R) (w : Worker R)
      → w.exited ≡ none
      → (perform_job env (add_sink_job sink) w).sinks ≡ w.sinks ++ sink ∷ []
  unfolding perform_job
  add_sinks sink w e = ground arith

  -- For a worker whose sinks are live, in a process that has not ended, `addSink` returns once the
  -- thread has done what it was sent before and has then added the sink behind the others; so the
  -- new sink gets none of the messages that were sent before.
  pub add_wrapped_sink_lem :
      (ms : List LogMessage) (sink : Sink R) (ks : List (LiveSink R)) (closed : List (Option R))
      (w : Worker R)
      → Has ks closed w
      → (w' : Worker R) × (add_wrapped_sink env sink (waiting (map save_job ms), w)
          ≡ some (waiting [], w'))
        × (w'.sinks ≡ map live (map (with_messages ms) ks) ++ sink ∷ [])
  unfolding add_wrapped_sink
  add_wrapped_sink_lem ms sink ks closed w h =
      let w1 = run_jobs (perform_job env) (map save_job ms) w in
      let h1 = saves-Has env ms ks closed w h in
      (
        perform_job env (add_sink_job sink) w1,
        spawn_and_wait_lem (perform_job env) (map save_job ms) (add_sink_job sink) w
            ∙ ap (λ x. some (waiting [], x))
                (run_jobs-append (perform_job env) (map save_job ms) (add_sink_job sink ∷ []) w),
        add_sinks sink w1 h1.running ∙ ap (λ l. l ++ sink ∷ []) h1.sinks,
      )

  orphan_step :
      (m : LogMessage) (w : Worker R)
      → w.sinks ≡ []
      → w.exited ≡ none
      → perform_job env (save_job m) w ≡ record w {
        stderr =
            w.stderr
            ++ (codes "g3logworker has no sinks. Message: [" ++ default_text env m ++ codes "]\n");
      }
  unfolding perform_job
  orphan_step m w n e = ground arith

  -- What messages do that find no sink.
  abbrev Orphaned : List LogMessage → Worker R → Worker R → Type 0
  Orphaned late w w' =
      (w'.sinks ≡ []) × (w'.closed ≡ w.closed) × (w'.stderr ≡ orphan_notes env late w.stderr)

  orphans :
      (late : List LogMessage) (w : Worker R)
      → w.sinks ≡ []
      → w.exited ≡ none
      → Orphaned late w (run_jobs (perform_job env) (map save_job late) w)
  orphans [] w n e = (n, refl, refl)
  orphans (m ∷ late) w n e =
      subst (λ x. Orphaned (m ∷ late) w (run_jobs (perform_job env) (map save_job late) x))
        (sym (orphan_step m w n e)) (orphans late _ n e)

  destroy_worker_run :
      (js late : List (Job R)) (w : Worker R)
      → destroy_worker env late (waiting js, w)
        ≡ some (
          finished,
          run_jobs
              (perform_job env)
              late
              (perform_job env clear_sinks_job (run_jobs (perform_job env) js w)),
        )
  unfolding destroy_worker
  destroy_worker_run js late w =
      rw (spawn_and_wait_lem (perform_job env) js clear_sinks_job w, destroy_worker)
        (rw (send_late-waiting [] late) (
          destroy_lem (perform_job env) late _
          ∙ ap (λ x. some (finished, run_jobs (perform_job env) late x))
              (run_jobs-append (perform_job env) js (clear_sinks_job ∷ []) w)))

  cleared : (w : Worker R) → w.exited ≡ none → perform_job env clear_sinks_job w ≡ clear_sinks w
  unfolding perform_job
  cleared w e = ground arith

  -- The destructor of a worker whose sinks are live, in a process that has not ended, returns: each
  -- real sink has logged the messages that were sent before it, behind what was pending, and the
  -- sinks are gone. Messages that other threads send between the two waits of the destructor are
  -- executed too: with no sink left each becomes a note on the standard error.
  pub destroy_worker_lem :
      (ms late : List LogMessage) (ks : List (LiveSink R)) (closed : List (Option R)) (w : Worker R)
      → Has ks closed w
      → (w' : Worker R) × (destroy_worker env (map save_job late) (waiting (map save_job ms), w)
          ≡ some (finished, w'))
        × (w'.sinks ≡ [])
        × (w'.closed ≡ closed ++ map (outcome ms) ks)
        × (w'.stderr
            ≡ orphan_notes env late (run_jobs (perform_job env) (map save_job ms) w).stderr)
  unfolding clear_sinks
  destroy_worker_lem ms late ks closed w h =
      let w1 = run_jobs (perform_job env) (map save_job ms) w in
      let h1 = saves-Has env ms ks closed w h in
      let end = orphans late (clear_sinks w1) refl h1.running in
      (
        run_jobs (perform_job env) (map save_job late) (clear_sinks w1),
        destroy_worker_run (map save_job ms) (map save_job late) w
            ∙ ap (λ x. some (finished, run_jobs (perform_job env) (map save_job late) x))
                (cleared w1 h1.running),
        end.0,
        end.1 ∙ ap₂ ◌++◌ h1.closed_before (ap (map destroy_sink) h1.sinks ∙ map-destroy ms ks),
        end.2,
      )
