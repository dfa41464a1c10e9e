-- ===== src/Pipeline.antt =====
-- src/logworker.cpp, src/g3log/active.hpp, src/g3log/sink.hpp and sinkhandle.hpp at work together:
-- the threads that call the worker, the thread of the worker and one thread for each sink. A step
-- is one call, or one job of one thread; any thread may take the next step. A job of the worker's
-- thread that destroys sinks is one step, since it joins the threads of these sinks.
pub mod Spec
pub mod Tracking
pub mod Serving
pub mod Refinement
pub mod Ending
pub mod Journal
pub mod LogFile
pub mod Tests
use myg3log.Base.{◌≡◌, Bool, false, List, [], ◌∷◌, ◌++◌, Option, none, some}
use myg3log.Message.{LogMessage, FatalMessage}
use myg3log.Active.{Active, Callback, Future, create_active, send, round}
use myg3log.Sink.{Sink, create_sink, perform_job, handle_call}
use myg3log.FileSink.{Environment}
use myg3log.LogWorker.{
  Worker, Job, add_sink_job, clear_sinks_job, save, fatal, perform_job as perform_for_worker,
}

-- What other threads ask of a worker: `addSink` is given a real sink, its log call and,
-- by its type, its destructor; the
-- destructor clears the sinks and then ends the thread.
pub data Request (R : Type 0) : Type 0 where
  save_request : LogMessage → Request R
  fatal_request : FatalMessage → Request R
  add_request : R → (LogMessage → R → R) → (R → R) → Request R
  clear_request : Request R
  done_request : Request R

module _ {R : Type 0} where
  -- `LogWorker::LogWorker()`, in a process with an active logger or none.
  unfoldable pub create_worker : Bool → Active (Job R) × Worker R
  unfolding create_active
  create_worker logging = (
    create_active,
    record { sinks = []; stderr = []; closed = []; logging = logging; exited = none },
  )

  -- `addSink(real_sink, call)` up to its wait.
  unfoldable pub send_sink : R → (LogMessage → R → R) → (R → R) → Active (Job R) → Active (Job R)
  unfolding send create_sink
  send_sink real call destructor bg =
      send (Callback.call (add_sink_job (create_sink real call destructor))) bg

  unfoldable pub issue : Request R → Active (Job R) → Active (Job R)
  unfolding save fatal send_sink send
  issue (save_request m) bg = save m bg
  issue (fatal_request f) bg = fatal f bg
  issue (add_request real call destructor) bg = send_sink real call destructor bg
  issue clear_request bg = send (Callback.call clear_sinks_job) bg
  issue done_request bg = send Callback.set_done bg

-- The states that are reached from a new worker, with what was asked of it so far, by users of the
-- handles whose calls are `Allowed`.
pub data Reach (env : Environment) {R : Type 0} (Allowed : (R → R) → Type 0) (logging : Bool)
    : List (Request R) → Active (Job R) × Worker R → Type 0 where
  created : Reach env Allowed logging [] (create_worker logging)
  asks :
      {asked : List (Request R)} {bg : Active (Job R)} {w : Worker R}
      → Reach env Allowed logging asked (bg, w)
      → (r : Request R) → Reach env Allowed logging (asked ++ r ∷ []) (issue r bg, w)
  works :
      {asked : List (Request R)} {bg : Active (Job R)} {w : Worker R}
      → Reach env Allowed logging asked (bg, w)
      → bg.done ≡ false
      → (next : Active (Job R) × Worker R) → round (perform_for_worker env) (bg, w) ≡ some next
      → Reach env Allowed logging asked next
  -- The thread of one sink runs a job.
  sinks :
      {asked : List (Request R)} {bg : Active (Job R)} {w : Worker R}
      → Reach env Allowed logging asked (bg, w)
      → (before : List (Sink R)) (s : Sink R) (behind : List (Sink R))
      → w.sinks ≡ before ++ s ∷ behind
      → s.bg.done ≡ false
      → (sink_bg : Active _) (real : R)
      → round (perform_job s.default_log_call) (s.bg, s.real_sink) ≡ some (sink_bg, real)
      → Reach env Allowed logging asked
          (bg, record w { sinks = before ++ record s { bg = sink_bg; real_sink = real } ∷ behind })
  -- A call of a real sink through its handle.
  calls :
      {asked : List (Request R)} {bg : Active (Job R)} {w : Worker R}
      → Reach env Allowed logging asked (bg, w)
      → (before : List (Sink R)) (s s' : Sink R) (behind : List (Sink R))
      → w.sinks ≡ before ++ s ∷ behind
      → (func : R → R) (future : Future Unit) → Allowed func
      → handle_call func (some s) ≡ (some s', future)
      → Reach env Allowed logging asked (bg, record w { sinks = before ++ s' ∷ behind })
