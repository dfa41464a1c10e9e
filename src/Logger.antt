-- ===== src/Logger.antt =====
-- src/g3log.cpp: the state of the logging system, and how a captured message reaches a worker. The
-- workers are numbered, and a worker is the queue of its thread. The code of the user that is
-- called back, the hooks and the fatal handlers, are numbered too; what they do is a parameter.
pub mod Save
pub mod Start
pub mod Recursion
pub mod Tests
use myg3log.Base.{
  ℕ, ◌+◌, ◌%◌, ◌^◌, Bool, true, false, not, ◌&&◌, List, [], ◌∷◌, ◌++◌, Option, none, some,
  if◌then◌else◌, ◌==◌, ltb,
}
use myg3log.Base.Int.{ℤ, pos}
use myg3log.Base.Text.{Text, codes}
use myg3log.Levels.{Level, LogLevels, was_fatal, log_level, warning}
use myg3log.Crash.Reason.{sigabrt}
use myg3log.Crash.Signals.{Signals, install_signal_handler, restore_signal_handler, exit_text}
use myg3log.Message.{LogMessage, FatalMessage, to_string, default_log_details}
use myg3log.Message.Build.{create, append_message, set_expression, fatal_message, reason}
use myg3log.Active.{Active}
use myg3log.LogWorker.{Job}
use myg3log.LogWorker
use myg3log.FileSink.{Environment}

-- What has become of the calling thread: it runs, it sleeps for good, or the process has ended, by
-- the signal of a fatal message, by `std::exit(EXIT_FAILURE)`, or by `std::terminate`.
pub data Control : Type 0 where
  running blocked failed terminated : Control
  exited : Level → ℤ → Control

-- The function to call before a fatal message: an empty one, as at the start; the one that does
-- nothing; or one of the user's.
pub data Hook : Type 0 where
  empty does_nothing : Hook
  user : ℕ → Hook

-- The variables of src/g3log.cpp; `none` is the null pointer, or for a function the initial value.
-- With them the standard error, and the state of the modules that the functions call.
pub record Logger (R : Type 0) : Type 0 where
  pub logger_instance : Option ℕ
  pub workers : ℕ → Active (Job R)
  pub first_uninitialized_msg : Option LogMessage
  pub initialized : Bool
  pub first_set : Bool
  pub first_saved : Bool
  pub hook : Hook
  pub recursive_counter : ℕ
  pub fatal_handler : Option ℕ
  pub first_stack_trace : Option Text
  pub signals : Signals
  pub levels : LogLevels
  pub stderr : Text
  pub control : Control

-- What the build and the system fix.
pub record Build : Type 0 where
  pub env : Environment
  pub accepts : ℤ → Bool
  pub no_signal_handling : Bool
  pub full_filename : Bool
  pub dynamic_levels : Bool
  pub this_file : Text

-- The arguments of `saveMessage`, with the time and the thread of the call.
pub record Capture : Type 0 where
  pub entry : Text
  pub file : Text
  pub line : ℤ
  pub function : Text
  pub level : Level
  pub expression : Text
  pub fatal_signal : ℤ
  pub stack_trace : Text
  pub now : ℕ
  pub thread : ℕ

-- The message as it is kept until a logger is there.
unfoldable pub mark_uninitialized : LogMessage → LogMessage
mark_uninitialized m = record m {
  entry = record (m.entry) { message = codes "LOGGER NOT INITIALIZED:\n\t\t" ++ m.message };
}

-- What `initializeLogging` writes before it ends the process; the first line names the file.
unfoldable pub illegal_initialization : Text → Bool → Bool → Text
illegal_initialization this_file again null =
    this_file
    ++ codes "->initializeLogging:65\n"
    ++ codes "\tFatal exit due to illegal initialization of g3::LogWorker\n"
    ++ codes "\t(due to multiple initializations? : "
    ++ (if again then codes "true" else codes "false")
    ++ codes ", due to nullptr == bgworker? : "
    ++ (if null then codes "true" else codes "false")
    ++ codes ")\n"

abbrev pub put {ℓ} : {A : Type ℓ} → (ℕ → A) → ℕ → A → ℕ → A
put f k v j = if k == j then v else f j

module _ {R : Type 0} where
  -- The rest of a function, which is only reached if the thread still runs.
  unfoldable pub then_do : (Logger R → Logger R) → Logger R → Logger R
  then_do rest s = elim s.control [ Control.running ↦ rest s | _ ↦ s ]

  -- `setFatalPreLoggingHook(pre_fatal_hook)`.
  unfoldable pub set_fatal_pre_logging_hook : Hook → Logger R → Logger R
  set_fatal_pre_logging_hook pre_fatal_hook s = record s { hook = pre_fatal_hook }

  -- `setFatalExitHandler(fatal_call)`; `none` is `pushFatalMessageToLogger`.
  unfoldable pub set_fatal_exit_handler : Option ℕ → Logger R → Logger R
  set_fatal_exit_handler fatal_call s = record s { fatal_handler = fatal_call }

  -- `isLoggingInitialized()`.
  unfoldable pub is_logging_initialized : Logger R → Bool
  is_logging_initialized s = elim s.logger_instance [ none ↦ false | some w ↦ true ]

  -- `shutDownLogging()`.
  unfoldable pub shut_down_logging : Logger R → Logger R
  shut_down_logging s = record s { logger_instance = none }

  -- `bgworker->save(message)` and `g_logger_instance->fatal(message)`.
  unfoldable pub save_to : ℕ → LogMessage → Logger R → Logger R
  save_to w m s = record s { workers = put s.workers w (LogWorker.save m (s.workers w)) }

  unfoldable pub fatal_to : ℕ → FatalMessage → Logger R → Logger R
  fatal_to w f s = record s { workers = put s.workers w (LogWorker.fatal f (s.workers w)) }

  -- `pushMessageToLogger(incoming)`.
  unfoldable pub push_message_to_logger : LogMessage → Logger R → Logger R
  unfolding mark_uninitialized save_to
  push_message_to_logger incoming s = elim s.logger_instance [
    | none ↦ if s.first_set then s else record s {
      first_set = true;
      first_uninitialized_msg = some (mark_uninitialized incoming);
      stderr = s.stderr ++ ((mark_uninitialized incoming).message ++ codes "\n");
    }
    | some w ↦ save_to w incoming s
  ]

  -- The one time call that hands over the first uninitialised message; the pointer is moved from.
  unfoldable pub save_first : ℕ → Logger R → Logger R
  unfolding save_to
  save_first w s = if s.first_saved then s else elim s.first_uninitialized_msg [
    | none ↦ record s { first_saved = true }
    | some m ↦ record (save_to w m s) { first_saved = true; first_uninitialized_msg = none }
  ]

module _ (build : Build) {R : Type 0} where
  -- `installCrashHandler()`, once.
  unfoldable pub install_once : Logger R → Logger R
  install_once s = if s.initialized then s else record s {
    initialized = true;
    signals = install_signal_handler build.accepts build.no_signal_handling s.signals;
  }

  fail_initialization : Bool → Logger R → Logger R
  fail_initialization null s = record s {
    stderr = s.stderr ++ illegal_initialization build.this_file (is_logging_initialized s) null;
    control = Control.failed;
  }

  -- `initializeLogging(bgworker)`.
  unfoldable pub initialize_logging : Option ℕ → Logger R → Logger R
  unfolding is_logging_initialized fail_initialization set_fatal_pre_logging_hook
  initialize_logging none s = fail_initialization true (install_once s)
  initialize_logging (some w) s =
      let s' = install_once s in
      if is_logging_initialized s'
      then fail_initialization false s'
      else record (set_fatal_pre_logging_hook Hook.does_nothing
          (record (save_first w s') { logger_instance = some w })) { recursive_counter = 0 }
