-- ===== src/FatalChoice/LogFile.antt =====
-- src/example/main_fatal_choice.cpp with src/logworker.cpp and src/filesink.cpp: from the function
-- that the user has chosen to the log file.
pub mod Tests
use myg3log.Base.{ℕ, ◌≡◌, ◌∙◌, ap, sym, Bool, List, [], ◌∷◌, ◌++◌, Option, some, map}
use myg3log.Base.Int.{ℤ}
use myg3log.Base.Text.{Text}
use myg3log.Levels.{Level}
use myg3log.Crash.Signals.{Action}
use myg3log.Message.{FatalMessage}
use myg3log.Active.{Active}
use myg3log.FileSink.{FileSink, Stream}
use myg3log.LogWorker.{Worker, Job, final_message}
use myg3log.Logger.{Control, Logger, Build}
use myg3log.Macros.Statements.{Place}
use myg3log.Macros.Programs.{saves_of, issue_all}
use myg3log.Macros.ProgramLog.{contract_message, program_requests, issue_all-append}
use myg3log.Pipeline.{save_request, fatal_request, add_request, create_worker, issue, Reach}
use myg3log.Pipeline.Journal.{Harmless, entries}
use myg3log.Pipeline.LogFile.{
  receive, shut_down, exit_line, file_journal, due_header, log_file_at_end,
}
use myg3log.FatalChoice.{DeathFunction}
use myg3log.FatalChoice.Functions.{Step, take_steps, steps_of}
use myg3log.FatalChoice.Deaths.{Death, IsReady, Dies, signal_capture}
use myg3log.FatalChoice.Exits.{death_of, death_lem}

module _ (build : Build) (run_hook : ℕ → Logger (Option FileSink) → Logger (Option FileSink))
    (run_handler : ℕ → FatalMessage → Logger (Option FileSink) → Logger (Option FileSink)) (pid : ℕ)
    (elsewhere : Action → ℤ → Logger (Option FileSink) → Logger (Option FileSink))
    (undefined_behaviour : Logger (Option FileSink) → Logger (Option FileSink))
    (at : ℕ → Text → Place) where
  abbrev steps : List Step → Logger (Option FileSink) → Logger (Option FileSink)
  steps xs s = take_steps build run_hook run_handler pid elsewhere undefined_behaviour xs s

  -- A worker was asked to add a file sink with an open file, it is active, the hook does nothing,
  -- no fatal handler is set, nothing fatal has happened and the signals are handled, when a thread executes a function of the example that raises one
  -- signal or breaks a contract. Then the worker is asked to save what the function says before, of
  -- those levels that are on, and to log the signal or the contract, and the thread sleeps, so that
  -- nothing behind is said. However the threads of the worker and of the sink take turns with
  -- these requests, and whatever calls are made through the handle that leave the file, the level,
  -- the format and the header alone, when the process has ended the file holds what it held, the
  -- header if that was due, the texts of these messages that are not below the level of the sink, in
  -- order and the signal or the contract last, and the line of the destructor on the shutdown.
  pub death_log_file :
      (g : ℤ) (f : DeathFunction) (xs : List Step) (d : Death) (sink : FileSink) (out : Stream)
      (logging : Bool) (w now later : ℕ) (s : Logger (Option FileSink))
      {state : Active (Job (Option FileSink)) × Worker (Option FileSink)} (by : Level × ℤ)
      → steps_of at g f ≡ some xs
      → death_of at (λ p sig. signal_capture build run_hook run_handler pid p sig) f ≡ some d
      → IsReady build run_hook run_handler pid elsewhere undefined_behaviour w s
      → s.workers w
        ≡ issue
            (add_request (some sink) (receive build.env now) (shut_down build.env later))
            (create_worker logging).0
      → sink.outptr ≡ some out
      → Reach build.env
          (Harmless (file_journal build.env now later sink.log_details_func sink.min_log_level))
          logging
          (program_requests build
            (some sink)
            (receive build.env now)
            (shut_down build.env later)
            (saves_of build d.said s.levels)
            d.crash)
          state
      → state.1.exited ≡ some by
      → ((steps xs s).control ≡ Control.blocked)
        × ((steps xs s).workers w
            ≡ issue_all
                (program_requests build
                  (some sink)
                  (receive build.env now)
                  (shut_down build.env later)
                  (saves_of build d.said s.levels)
                  d.crash)
                (create_worker logging).0)
        × ((left : FileSink) × (end : Stream) × (state.1.closed ≡ some (some left) ∷ [])
            × (left.outptr ≡ some end)
            × (end.written
                ≡ out.written
                  ++ due_header build.env now sink
                  ++ entries
                      (file_journal build.env now later sink.log_details_func sink.min_log_level)
                      (saves_of build d.said s.levels
                        ++ final_message build.env (contract_message build d.crash) ∷ [])
                  ++ exit_line build.env later))
  death_log_file g f xs d sink out logging w now later s by e h ready added o r x =
      let dead =
        death_lem build run_hook run_handler pid elsewhere undefined_behaviour at g f xs d w s e h
          ready in
      let saves = map save_request (saves_of build d.said s.levels) in
      let last = fatal_request (contract_message build d.crash) in
      (
        dead.sleeps,
        dead.asked
            ∙ ap (λ bg. issue last (issue_all saves bg)) added
            ∙ sym (
                issue_all-append
                  (add_request (some sink) (receive build.env now) (shut_down build.env later)
                    ∷ saves)
                  (last ∷ []) (create_worker logging).0),
        log_file_at_end build.env now later sink out (saves_of build d.said s.levels)
            (contract_message build d.crash) [] by o r x,
      )
