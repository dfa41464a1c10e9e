-- ===== src/Pipeline/Tests.antt =====
-- Runs of a worker with one sink, to the end of the process.
use myg3log.Base.{◌≡◌, refl, true, List, [], ◌∷◌, ◌++◌, Option, some, map, Pointwise}
use myg3log.Message.{LogMessage}
use myg3log.Active.{Active, round, perform, send}
use myg3log.Sink.{create_sink, send_message, perform_job}
use myg3log.LogWorker.{Worker, Job, final_message, perform_job as perform_for_worker}
use myg3log.Levels.{Level}
use myg3log.Base.Int.{ℤ}
use myg3log.Active.Queue.{push, wait_and_pop}
use myg3log.Pipeline.{
  Request, save_request, fatal_request, add_request, clear_request, create_worker, issue, Reach,
  created, asks, works, sinks,
}
use myg3log.Pipeline.Spec.{Served}
use myg3log.Pipeline.Ending.{EndedBy, left_by, ended-EndedBy}
use myg3log.FileSink.{FileSink, Stream}
use myg3log.Pipeline.Journal.{Journal, Harmless, entries}
use myg3log.Pipeline.LogFile.{
  receive, shut_down, exit_line, file_journal, due_header, log_file_at_end,
}
use myg3log.Pipeline.Refinement.{Progress, reach-Progress}
use myg3log.Samples.{environment, message, fatal_sample, file_sink, Kept}

abbrev keep_message : LogMessage → Kept → Kept
keep_message m r = r ++ m ∷ []

abbrev requests : List (Request Kept)
requests =
    add_request [] keep_message (λ r. r)
    ∷ save_request message
    ∷ fatal_request fatal_sample
    ∷ clear_request
    ∷ []

-- Calls that leave a real sink as it is.
abbrev Idle : (Kept → Kept) → Type 0
Idle f = (r : Kept) → f r ≡ r

-- A state that is reached.
abbrev Run : List (Request Kept) → Type 0
Run asked = (now : Active (Job Kept) × Worker Kept) × Reach environment Idle true asked now

abbrev fatal_end : Level × ℤ
fatal_end = (fatal_sample.log_message.level, fatal_sample.signal_id)

saved_run : Run (add_request [] keep_message (λ r. r) ∷ save_request message ∷ [])
unfolding create_worker issue round push wait_and_pop perform perform_for_worker
saved_run = (
  _,
  works
      (works (asks (asks created (add_request [] keep_message (λ r. r))) (save_request message))
        refl _ refl)
      refl _ refl,
)

-- The sink logs the message before the worker gets to the fatal one.
delivered_run : Run (add_request [] keep_message (λ r. r) ∷ save_request message ∷ [])
unfolding saved_run create_sink send_message send perform perform_job round
delivered_run = (_, sinks saved_run.1 [] _ [] refl refl _ _ refl)

fatal_run : Run requests
unfolding delivered_run issue
fatal_run =
    (_, works (asks (asks delivered_run.1 (fatal_request fatal_sample)) clear_request) refl _ refl)

reach-Progress_example : Progress environment Idle requests fatal_run.0
reach-Progress_example = reach-Progress environment Idle fatal_run.1

ended-EndedBy_example :
    (e : EndedBy environment fatal_end requests) × (fatal_run.0.1.sinks ≡ [])
    × Pointwise (Served Idle) (left_by environment e.before e.fatal) fatal_run.0.1.closed
unfolding fatal_run
ended-EndedBy_example = ended-EndedBy environment Idle fatal_run.1 fatal_end refl

abbrev file_requests : List (Request (Option FileSink))
file_requests =
    (add_request (some file_sink) (receive environment 6) (shut_down environment 8)
      ∷ map save_request (message ∷ []))
    ++ fatal_request fatal_sample ∷ []

abbrev journal : Journal (Option FileSink)
journal = file_journal environment 6 8 file_sink.log_details_func file_sink.min_log_level

file_run :
    (now : Active (Job (Option FileSink)) × Worker (Option FileSink)) × Reach environment
      (Harmless journal)
      true
      file_requests
      now
unfolding create_worker issue round push wait_and_pop perform perform_for_worker
file_run =
    let asked =
      asks
        (asks
          (asks created
            (add_request (some file_sink) (receive environment 6) (shut_down environment 8)))
          (save_request message))
        (fatal_request fatal_sample) in
    (_, works (works (works asked refl _ refl) refl _ refl) refl _ refl)

log_file_at_end_example :
    (left : FileSink) × (end : Stream) × (file_run.0.1.closed ≡ some (some left) ∷ [])
    × (left.outptr ≡ some end)
    × (end.written
        ≡ []
          ++ due_header environment 6 file_sink
          ++ entries journal (message ∷ final_message environment fatal_sample ∷ [])
          ++ exit_line environment 8)
unfolding file_run
log_file_at_end_example =
    log_file_at_end environment 6 8 file_sink _ (message ∷ []) fatal_sample [] fatal_end refl
      file_run.1 refl
