-- ===== src/Macros/ProgramLog/Tests.antt =====
-- A program with two statements, one of which is at a level that is off, and a contract.
use myg3log.Base.{
  ℕ, ◌≡◌, refl, true, false, not, List, [], ◌∷◌, ◌++◌, Option, none, some, ◌==◌, ltb, leb,
}
use myg3log.Base.Int.{pos}
use myg3log.Base.Text.{Text}
use myg3log.Levels.{
  info, debug, contract, was_fatal, log_level, log_level_defaults, find, disable, set, insert,
}
use myg3log.Crash.Reason.{sigabrt}
use myg3log.Message.{FatalMessage}
use myg3log.Active.{Active, round, perform}
use myg3log.Active.Queue.{push, wait_and_pop}
use myg3log.FileSink.{FileSink, Stream}
use myg3log.Message.Build.{fatal_message, append_message, set_expression, create}
use myg3log.Logger.Save.{captured}
use myg3log.LogWorker.{Worker, Job, final_message, perform_job as perform_for_worker}
use myg3log.Logger.{Logger, Hook, Control}
use myg3log.Macros.Statements.{Place, Comparisons, CheckOp, compare_values, check_op_statement}
use myg3log.Macros.Contracts.{broken}
use myg3log.Macros.Programs.{Statement, saves_of, issue_all, run_statements}
use myg3log.Macros.ProgramLog.{contract_message, program_requests, program_log_file}
use myg3log.Pipeline.{
  Request, save_request, fatal_request, add_request, create_worker, issue, Reach, created, asks,
  works,
}
use myg3log.Pipeline.Journal.{Harmless, entries, Journal}
use myg3log.Pipeline.LogFile.{receive, shut_down, exit_line, file_journal, due_header}
use myg3log.Samples.{build, file_sink, logger}

abbrev no_demangler : Text → Option Text
no_demangler name = none

abbrev place : Place
place = record {
  file = b'f' ∷ [];
  line = pos 3;
  function = b'g' ∷ [];
  now = 9;
  thread = 1;
  demangle = no_demangler;
  backtrace = [];
}

abbrev numbers : Comparisons ℕ
numbers = record {
  eq = λ a b. a == b;
  ne = λ a b. not (a == b);
  le = leb;
  lt = ltb;
  ge = λ a b. leb b a;
  gt = λ a b. ltb b a;
}

abbrev statements : List Statement
statements =
    record { place = place; level = info; text = b'i' ∷ [] }
    ∷ record { place = place; level = debug; text = b'd' ∷ [] }
    ∷ []

abbrev R : Type 0
R = Option FileSink

abbrev no_hook : ℕ → Logger R → Logger R
no_hook h s = s

abbrev no_handler : ℕ → FatalMessage → Logger R → Logger R
no_handler h f s = s

-- The level DEBUG is off, and worker 4 was asked to add the sink.
program_logger : Logger R
unfolding issue create_worker disable log_level_defaults
program_logger = record {
  logger_instance = some 4;
  workers = λ w.
      issue (add_request (some file_sink) (receive build.env 6) (shut_down build.env 8))
        (create_worker true).0;
  first_uninitialized_msg = none;
  initialized = true;
  first_set = false;
  first_saved = true;
  hook = Hook.does_nothing;
  recursive_counter = 0;
  fatal_handler = none;
  first_stack_trace = none;
  signals = logger.signals;
  levels = disable debug log_level_defaults;
  stderr = [];
  control = Control.running;
}

abbrev requests : List (Request R)
requests =
    program_requests build (some file_sink) (receive build.env 6) (shut_down build.env 8)
      (saves_of build statements program_logger.levels)
      (broken place CheckOp.check_lt (b'a' ∷ []) (b'b' ∷ []) [])

abbrev journal : Journal R
journal = file_journal build.env 6 8 file_sink.log_details_func file_sink.min_log_level

program_run :
    (now : Active (Job R) × Worker R) × Reach build.env (Harmless journal) true requests now
unfolding program_logger log_level find set insert create_worker issue round push wait_and_pop
    perform perform_for_worker
program_run =
    let asked =
      asks
        (asks
          (asks created
            (add_request (some file_sink) (receive build.env 6) (shut_down build.env 8)))
          (save_request _))
        (fatal_request
          (contract_message build (broken place CheckOp.check_lt (b'a' ∷ []) (b'b' ∷ []) []))) in
    (_, works (works (works asked refl _ refl) refl _ refl) refl _ refl)

program_log_file_example :
    ((check_op_statement build no_hook no_handler place numbers CheckOp.check_lt
          (b'a' ∷ [])
          (b'b' ∷ [])
          5
          3
          []
          (run_statements build no_hook no_handler statements program_logger)).workers
        4
      ≡ issue_all requests (create_worker true).0)
    × ((left : FileSink) × (end : Stream) × (program_run.0.1.closed ≡ some (some left) ∷ [])
        × (left.outptr ≡ some end)
        × (end.written
            ≡ []
              ++ due_header build.env 6 file_sink
              ++ entries journal (
                  saves_of build statements program_logger.levels
                  ++ final_message build.env (
                      contract_message build
                        (broken place CheckOp.check_lt (b'a' ∷ []) (b'b' ∷ []) []))
                    ∷ [])
              ++ exit_line build.env 8))
unfolding program_run program_logger was_fatal compare_values fatal_message append_message captured
    set_expression create
program_log_file_example =
    program_log_file build no_hook no_handler statements place numbers CheckOp.check_lt (b'a' ∷ [])
      (b'b' ∷ []) 5 3 [] file_sink _ true 4 6 8 program_logger (contract, sigabrt)
      (refl, (refl, tt)) refl refl
      (record {
        active = refl;
        sink_added = refl;
        no_hook = refl;
        no_handler = refl;
        no_crash = refl;
        runs = refl;
      })
      program_run.1 refl
