-- ===== src/LogWorker/Fatal.antt =====
-- A fatal message is the last one, and every sink has it when the process ends.
use myg3log.Base.{
  ◌≡◌, refl, sym, ◌∙◌, ap, ap₂, subst, false, arith, List, [], ◌∷◌, ◌++◌, Option, none, some, map,
  map_id, map_compose,
}
use myg3log.Base.Int.{ℤ}
use myg3log.Levels.{Level}
use myg3log.Message.{LogMessage, FatalMessage}
use myg3log.Message.Build.{copy}
use myg3log.Active.Draining.{run_jobs, run_jobs-append}
use myg3log.Sink.{send_message, destroy_sink}
use myg3log.Sink.Delivery.{
  LiveSink, live, with_message, with_messages, final, send_message-live, destroy_sink-live, log_all,
  final-with_messages, same_destructor,
}
use myg3log.FileSink.{Environment}
use myg3log.LogWorker.{Worker, Job, save_job, fatal_job, final_message, perform_job}

copy_same : (m : LogMessage) → copy m ≡ m
unfolding copy
copy_same m = refl

log_all-append :
    {R : Type 0} (call : LogMessage → R → R) (ms : List LogMessage) (m : LogMessage) (r : R)
    → log_all call (ms ++ m ∷ []) r ≡ call m (log_all call ms r)
log_all-append call [] m r = refl
log_all-append call (n ∷ ms) m r = log_all-append call ms m (call n r)

module _ {R : Type 0} where
  -- The sinks of a worker are live, and the process has not ended.
  pub record Has (ks : List (LiveSink R)) (closed : List (Option R)) (w : Worker R) : Type 0 where
    pub sinks : w.sinks ≡ map live ks
    pub closed_before : w.closed ≡ closed
    pub running : w.exited ≡ none

  same_call : (ms : List LogMessage) (k : LiveSink R) → (with_messages ms k).log_call ≡ k.log_call
  same_call [] k = refl
  same_call (m ∷ ms) k = same_call ms (with_message m k)

  -- What becomes of a real sink: it has logged the messages, behind what was pending, before its
  -- destructor.
  abbrev pub outcome : List LogMessage → LiveSink R → Option R
  outcome ms k = some (k.destructor (log_all k.log_call ms (final k)))

  map-send :
      (m : LogMessage) (ks : List (LiveSink R))
      → map (send_message (copy m)) (map live ks) ≡ map live (map (with_message m) ks)
  map-send m ks =
      map_compose (send_message (copy m)) live (λ k. live (with_message m k))
        (λ k. ap (λ c. send_message c (live k)) (copy_same m) ∙ send_message-live m k) ks
      ∙ sym (map_compose live (with_message m) (λ k. live (with_message m k)) (λ k. refl) ks)

  pub map-destroy :
      (ms : List LogMessage) (ks : List (LiveSink R))
      → map destroy_sink (map live (map (with_messages ms) ks)) ≡ map (outcome ms) ks
  map-destroy ms ks =
      map_compose destroy_sink live (λ k. some (k.destructor (final k))) destroy_sink-live
        (map (with_messages ms) ks)
      ∙ map_compose (λ k. some (k.destructor (final k))) (with_messages ms) (outcome ms)
          (λ k. ap₂ (λ d r. some (d r)) (same_destructor ms k) (final-with_messages ms k)) ks

  map-with_messages :
      (m : LogMessage) (ms : List LogMessage) (ks : List (LiveSink R))
      → map (with_messages ms) (map (with_message m) ks) ≡ map (with_messages (m ∷ ms)) ks
  map-with_messages m ms ks =
      map_compose (with_messages ms) (with_message m) (with_messages (m ∷ ms)) (λ k. refl) ks

module _ (env : Environment) {R : Type 0} where
  save-Has :
      (m : LogMessage) (ks : List (LiveSink R)) (closed : List (Option R)) (w : Worker R)
      → Has ks closed w
      → Has (map (with_message m) ks) closed (perform_job env (save_job m) w)
  unfolding perform_job
  save-Has m [] closed w h =
      rw (h.running, perform_job)
        (record { sinks = ground arith; closed_before = ground arith; running = ground arith })
  save-Has m (k ∷ ks) closed w h =
      rw (h.running, perform_job)
        (record {
          sinks = ground (arith, map-send m (k ∷ ks));
          closed_before = ground arith;
          running = ground arith;
        })

  pub saves-Has :
      (ms : List LogMessage) (ks : List (LiveSink R)) (closed : List (Option R)) (w : Worker R)
      → Has ks closed w
      → Has (map (with_messages ms) ks) closed (run_jobs (perform_job env) (map save_job ms) w)
  saves-Has [] ks closed w h = record {
    sinks = h.sinks ∙ ap (map live) (sym (map_id ks));
    closed_before = h.closed_before;
    running = h.running;
  }
  saves-Has (m ∷ ms) ks closed w h =
      subst (λ l. Has l closed (run_jobs (perform_job env) (map save_job (m ∷ ms)) w))
        (map-with_messages m ms ks)
        (saves-Has ms (map (with_message m) ks) closed (perform_job env (save_job m) w)
          (save-Has m ks closed w h))

  -- The process has ended by the signal, with no sink left and no logger active.
  pub record Ended (level : Level) (signal : ℤ) (closed : List (Option R)) (w : Worker R)
      : Type 0 where
    pub no_sinks : w.sinks ≡ []
    pub all_closed : w.closed ≡ closed
    pub shut_down : w.logging ≡ false
    pub by_signal : w.exited ≡ some (level, signal)

  fatal-Ended :
      (f : FatalMessage) (ks : List (LiveSink R)) (closed : List (Option R)) (w : Worker R)
      → Has ks closed w
      → Ended f.log_message.level f.signal_id
          (closed ++ map (outcome (final_message env f ∷ [])) ks)
          (perform_job env (fatal_job f) w)
  unfolding perform_job
  fatal-Ended f ks closed w h =
      rw (h.running, perform_job)
        (record {
          no_sinks = refl;
          all_closed = ap₂ ◌++◌ h.closed_before (
              ap (λ l. map destroy_sink (map (send_message (copy (final_message env f))) l)) h.sinks
              ∙ ap (map destroy_sink) (map-send (final_message env f) ks)
              ∙ map-destroy (final_message env f ∷ []) ks);
          shut_down = refl;
          by_signal = refl;
        })

  -- Nothing is done for a process that has ended.
  ended_idle :
      (js : List (Job R)) (w : Worker R) (by : Level × ℤ)
      → w.exited ≡ some by
      → run_jobs (perform_job env) js w ≡ w
  unfolding perform_job
  ended_idle [] w by e = refl
  ended_idle (j ∷ js) w by e =
      ap (run_jobs (perform_job env) js) (ground arith) ∙ ended_idle js w by e

  outcomes :
      (ms : List LogMessage) (m : LogMessage) (ks : List (LiveSink R))
      → map (outcome (m ∷ [])) (map (with_messages ms) ks) ≡ map (outcome (ms ++ m ∷ [])) ks
  outcomes ms m ks =
      map_compose (outcome (m ∷ [])) (with_messages ms) (outcome (ms ++ m ∷ []))
        (λ k.
          ap₂ (λ d r. some (d r)) (same_destructor ms k)
            (ap₂ (λ call r. call m r) (same_call ms k) (final-with_messages ms k)
              ∙ sym (log_all-append k.log_call ms m (final k))))
        ks

  -- The thread of a worker whose sinks are live, in a process that has not ended, is sent messages,
  -- then a fatal message, then anything else. When it has run these jobs the process has ended by
  -- the signal of the fatal message, logging is shut down, and the sinks are gone; each real sink
  -- has logged what was pending, each of the messages once and in order, and last the fatal message
  -- with its note. What was sent later is not logged.
  pub fatal_last :
      (ms : List LogMessage) (f : FatalMessage) (later : List (Job R)) (ks : List (LiveSink R))
      (closed : List (Option R)) (w : Worker R)
      → Has ks closed w
      → Ended f.log_message.level f.signal_id
          (closed ++ map (outcome (ms ++ final_message env f ∷ [])) ks)
          (run_jobs (perform_job env) (map save_job ms ++ fatal_job f ∷ later) w)
  fatal_last ms f later ks closed w h =
      let w1 = run_jobs (perform_job env) (map save_job ms) w in
      let end = fatal-Ended f (map (with_messages ms) ks) closed w1 (saves-Has ms ks closed w h) in
      rw (run_jobs-append (perform_job env) (map save_job ms) (fatal_job f ∷ later) w) (
        rw (ended_idle later (perform_job env (fatal_job f) w1) _ end.by_signal)
          (rw (outcomes ms (final_message env f) ks) at end))
