-- ===== src/FatalChoice/LogFile/Tests.antt =====
-- The function that raises SIGTERM, with a file sink behind the worker.
use myg3log.Base.{ℕ, ◌≡◌, refl, true, false, List, [], ◌∷◌, ◌++◌, Option, none, some}
use myg3log.Base.Int.{ℤ, pos}
use myg3log.Base.Text.{Text, codes}
use myg3log.Levels.{debug, info, fatal_signal, log_level, log_level_defaults, find, set, insert}
use myg3log.Crash.Reason.{sigterm}
use myg3log.Crash.Signals.{Action}
use myg3log.Message.{FatalMessage}
use myg3log.Message.Build.{fatal_message, append_message, set_expression, create}
use myg3log.Active.{Active, round, perform}
use myg3log.Active.Queue.{push, wait_and_pop}
use myg3log.FileSink.{FileSink, Stream}
use myg3log.LogWorker.{Worker, Job, final_message, perform_job as perform_for_worker}
use myg3log.Logger.{Logger, Control, Hook}
use myg3log.Logger.Save.{captured}
use myg3log.Macros.Statements.{Place}
use myg3log.Macros.Programs.{saves_of, issue_all}
use myg3log.Macros.ProgramLog.{contract_message, program_requests}
use myg3log.Pipeline.{
  Request, save_request, fatal_request, add_request, create_worker, issue, Reach, created, asks,
  works,
}
use myg3log.Pipeline.Journal.{Harmless, entries, Journal}
use myg3log.Pipeline.LogFile.{receive, shut_down, exit_line, file_journal, due_header}
use myg3log.FatalChoice.{DeathFunction}
use myg3log.FatalChoice.Functions.{take_steps, steps_of, raise_sigterm_steps}
use myg3log.FatalChoice.Deaths.{Death, signal_capture}
use myg3log.FatalChoice.LogFile.{death_log_file}
use myg3log.Samples.{build, file_sink, logger}

abbrev R : Type 0
R = Option FileSink

abbrev no_demangler : Text → Option Text
no_demangler name = none

abbrev at : ℕ → Text → Place
at line name = record {
  file = b'm' ∷ [];
  line = pos line;
  function = name;
  now = 9;
  thread = 1;
  demangle = no_demangler;
  backtrace = [];
}

abbrev no_hook : ℕ → Logger R → Logger R
no_hook h s = s

abbrev no_handler : ℕ → FatalMessage → Logger R → Logger R
no_handler h f s = s

abbrev ends : Action → ℤ → Logger R → Logger R
ends a sig s = record s { control = Control.exited fatal_signal sig }

abbrev crashes : Logger R → Logger R
crashes s = record s { control = Control.terminated }

handling : Logger R
unfolding issue create_worker
handling = record {
  logger_instance = some 4;
  workers = λ w.
      issue (add_request (some file_sink) (receive build.env 6) (shut_down build.env 8))
        (create_worker true).0;
  first_uninitialized_msg = none;
  initialized = true;
  first_set = false;
  first_saved = true;
  hook = Hook.does_nothing;
  recursive_counter = 0;
  fatal_handler = none;
  first_stack_trace = none;
  signals = record (logger.signals) { system = λ sig. Action.ours };
  levels = log_level_defaults;
  stderr = [];
  control = Control.running;
}

abbrev death : Death
death = record {
  said =
      record { place = at 70 (codes "RAiseSIGTERM"); level = debug; text = codes " trigger exit" }
      ∷ record {
        place = at 71 (codes "RAiseSIGTERM");
        level = info;
        text = codes "Exiting by SIGFPE";
      }
      ∷ [];
  crash = signal_capture build no_hook no_handler 7 (at 72 (codes "RAiseSIGTERM")) sigterm;
}

abbrev requests : List (Request R)
requests =
    program_requests build (some file_sink) (receive build.env 6) (shut_down build.env 8)
      (saves_of build death.said handling.levels) death.crash

abbrev journal : Journal R
journal = file_journal build.env 6 8 file_sink.log_details_func file_sink.min_log_level

death_run : (now : Active (Job R) × Worker R) × Reach build.env (Harmless journal) true requests now
unfolding handling log_level find set insert log_level_defaults create_worker issue round push
    wait_and_pop perform perform_for_worker
death_run =
    let asked =
      asks
        (asks
          (asks
            (asks created
              (add_request (some file_sink) (receive build.env 6) (shut_down build.env 8)))
            (save_request _))
          (save_request _))
        (fatal_request (contract_message build death.crash)) in
    (_, works (works (works (works asked refl _ refl) refl _ refl) refl _ refl) refl _ refl)

death_log_file_example :
    ((take_steps build no_hook no_handler 7 ends crashes (raise_sigterm_steps at) handling).control
      ≡ Control.blocked)
    × ((take_steps build no_hook no_handler 7 ends crashes
            (raise_sigterm_steps at)
            handling).workers
          4
        ≡ issue_all requests (create_worker true).0)
    × ((left : FileSink) × (end : Stream) × (death_run.0.1.closed ≡ some (some left) ∷ [])
        × (left.outptr ≡ some end)
        × (end.written
            ≡ []
              ++ due_header build.env 6 file_sink
              ++ entries journal (
                  saves_of build death.said handling.levels
                  ++ final_message build.env (contract_message build death.crash) ∷ [])
              ++ exit_line build.env 8))
unfolding death_run handling steps_of fatal_message append_message captured set_expression create
death_log_file_example =
    death_log_file build no_hook no_handler 7 ends crashes at (pos 1) DeathFunction.raise_sigterm _
      _ file_sink _ true 4 6 8 handling (fatal_signal, sigterm) refl refl
      (record {
        active = refl;
        no_hook = refl;
        no_handler = refl;
        no_crash = refl;
        runs = refl;
        no_signal = refl;
        handled = λ sig l. refl;
      })
      refl refl death_run.1 refl
