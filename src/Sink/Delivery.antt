-- ===== src/Sink/Delivery.antt =====
-- What a real sink has received when its sink is destroyed.
use myg3log.Base.{false, ◌≡◌, refl, ◌∙◌, ap, ap₂, List, [], ◌∷◌, ◌++◌, some}
use myg3log.Message.{LogMessage}
use myg3log.Active.{send}
use myg3log.Active.Queue.{push}
use myg3log.Active.Draining.{run_jobs, waiting, destroy_lem, map-sent}
use myg3log.Sink.{Sink, SinkJob, send_message, perform_job, destroy_sink}

-- A sink that is not being destroyed: its real sink, the jobs in its queue, its log call and the
-- destructor of the real sink.
pub record LiveSink (R : Type 0) : Type 0 where
  pub real : R
  pub pending : List (SinkJob R)
  pub log_call : LogMessage → R → R
  pub destructor : R → R

module _ {R : Type 0} where
  abbrev pub live : LiveSink R → Sink R
  live k = record {
    real_sink = k.real;
    bg = waiting k.pending;
    default_log_call = k.log_call;
    destructor = k.destructor;
  }

  abbrev pub with_message : LogMessage → LiveSink R → LiveSink R
  with_message m k = record k { pending = k.pending ++ SinkJob.deliver m ∷ [] }

  -- The real sink once it has done what was pending.
  abbrev pub final : LiveSink R → R
  final k = run_jobs (perform_job k.log_call) k.pending k.real

  pub send_message-live :
      (m : LogMessage) (k : LiveSink R) → send_message m (live k) ≡ live (with_message m k)
  unfolding send_message send push
  send_message-live m k =
      ap
        (λ q. record {
          real_sink = k.real;
          bg = record { mq = q; done = false };
          default_log_call = k.log_call;
          destructor = k.destructor;
        })
        (map-sent k.pending (SinkJob.deliver m))

  -- A sink that is destroyed ends its thread, and its real sink has then been given everything
  -- that the sink was sent, in the order of the calls, before it is destroyed itself.
  pub destroy_sink-live : (k : LiveSink R) → destroy_sink (live k) ≡ some (k.destructor (final k))
  unfolding destroy_sink
  destroy_sink-live k = rw (destroy_lem (perform_job k.log_call) k.pending k.real, destroy_sink)

  abbrev pub with_messages : List LogMessage → LiveSink R → LiveSink R
  with_messages [] k = k
  with_messages (m ∷ ms) k = with_messages ms (with_message m k)

  pub same_destructor :
      (ms : List LogMessage) (k : LiveSink R) → (with_messages ms k).destructor ≡ k.destructor
  same_destructor [] k = refl
  same_destructor (m ∷ ms) k = same_destructor ms (with_message m k)

  abbrev pub send_all : List LogMessage → Sink R → Sink R
  send_all [] s = s
  send_all (m ∷ ms) s = send_all ms (send_message m s)

  pub send_all-live :
      (ms : List LogMessage) (k : LiveSink R) → send_all ms (live k) ≡ live (with_messages ms k)
  send_all-live [] k = refl
  send_all-live (m ∷ ms) k =
      ap (send_all ms) (send_message-live m k) ∙ send_all-live ms (with_message m k)

  abbrev pub log_all : (LogMessage → R → R) → List LogMessage → R → R
  log_all log_call [] r = r
  log_all log_call (m ∷ ms) r = log_all log_call ms (log_call m r)

  run_jobs-append :
      (call : LogMessage → R → R) (js : List (SinkJob R)) (m : LogMessage) (r : R)
      → run_jobs (perform_job call) (js ++ SinkJob.deliver m ∷ []) r
        ≡ call m (run_jobs (perform_job call) js r)
  unfolding perform_job
  run_jobs-append call [] m r = refl
  run_jobs-append call (j ∷ js) m r = run_jobs-append call js m (perform_job call j r)

  -- Messages sent to a sink reach its real sink behind what was pending, in order.
  pub final-with_messages :
      (ms : List LogMessage) (k : LiveSink R)
      → final (with_messages ms k) ≡ log_all k.log_call ms (final k)
  final-with_messages [] k = refl
  final-with_messages (m ∷ ms) k =
      final-with_messages ms (with_message m k)
      ∙ ap (log_all k.log_call ms) (run_jobs-append k.log_call k.pending m k.real)

  -- Whatever the messages, and whatever was pending, the destruction of the sink that they were
  -- sent to leaves a real sink that has done the pending jobs and then logged each message once,
  -- in the order of the sends, before its destructor.
  pub destroy_sink-send_all :
      (ms : List LogMessage) (k : LiveSink R)
      → destroy_sink (send_all ms (live k)) ≡ some (k.destructor (log_all k.log_call ms (final k)))
  destroy_sink-send_all ms k =
      ap destroy_sink (send_all-live ms k)
      ∙ destroy_sink-live (with_messages ms k)
      ∙ ap₂ (λ d r. some (d r)) (same_destructor ms k) (final-with_messages ms k)
