-- ===== src/FatalChoice/Threads/OneSignal/Tests.antt =====
-- The threads of `RaiseSIGABRTAndAccessViolation`: the first raises its signal, the second speaks.
use myg3log.Base.{ℕ, ◌≡◌, refl, arith, List, [], ◌∷◌, Option, none, if◌then◌else◌, ◌==◌}
use myg3log.Base.Int.{ℤ, pos}
use myg3log.Base.Text.{Text, codes}
use myg3log.Levels.{fatal_signal, was_fatal}
use myg3log.Crash.Reason.{sigabrt, sigsegv}
use myg3log.Crash.Signals.{Action, signal_handler, should_do_exit, k_signals}
use myg3log.Message.{FatalMessage}
use myg3log.Logger.{Control, Logger, then_do, fatal_to}
use myg3log.Logger.Save.{
  save_message, call_hook, enter_fatal, leave_fatal, fatal_call, push_fatal_message_to_logger,
}
use myg3log.Capture.{destroy, to_capture, crash_capture, log_capture, write}
use myg3log.Capture.Crashes.{handle_signal, crash_entry}
use myg3log.Macros.Statements.{Place}
use myg3log.Macros.Programs.{issue_all}
use myg3log.Pipeline.{Request}
use myg3log.FatalChoice.Functions.{
  Step, raise, take_step, raise_sigabrt_steps, access_violation_steps, trigger_exit,
  expected_to_have_died,
}
use myg3log.FatalChoice.Threads.{
  take_turn, left, Turns, begins, turn, raise_sigabrt_and_access_violation_threads,
}
use myg3log.FatalChoice.Threads.Asking.{fatals}
use myg3log.FatalChoice.Threads.OneSignal.{one_signal}
use myg3log.Samples.{build, active_logger, Kept}

abbrev no_demangler : Text → Option Text
no_demangler name = none

abbrev at : ℕ → Text → Place
at line name = record {
  file = b'm' ∷ [];
  line = pos line;
  function = name;
  now = 9;
  thread = 1;
  demangle = no_demangler;
  backtrace = [];
}

abbrev no_hook : ℕ → Logger Kept → Logger Kept
no_hook h s = s

abbrev no_handler : ℕ → FatalMessage → Logger Kept → Logger Kept
no_handler h f s = s

abbrev ends : Action → ℤ → Logger Kept → Logger Kept
ends a sig s = record s { control = Control.exited fatal_signal sig }

abbrev segmentation_fault : Logger Kept → Logger Kept
segmentation_fault s = raise build no_hook no_handler 7 ends (λ t. t) (at 104 []) sigsegv s

abbrev start : Logger Kept
start = record active_logger {
  signals = record (active_logger.signals) { system = λ sig. Action.ours };
}

abbrev threads : List (List Step)
threads = (raise_sigabrt_and_access_violation_threads at).1

abbrev crashed : Logger Kept
crashed =
    take_turn build no_hook no_handler 7 ends segmentation_fault
      (Step.raises (at 43 (codes "RaiseSIGABRT")) sigabrt) start

abbrev spoken : Logger Kept
spoken =
    take_turn build no_hook no_handler 7 ends segmentation_fault
      (trigger_exit at 101 (codes "AccessViolation")) crashed

turns :
    (now : List (List Step)) × Turns build no_hook no_handler 7 ends segmentation_fault threads
      start now spoken
unfolding raise_sigabrt_and_access_violation_threads raise_sigabrt_steps access_violation_steps
    take_turn take_step left raise handle_signal signal_handler should_do_exit destroy save_message
    call_hook then_do enter_fatal leave_fatal fatal_call push_fatal_message_to_logger fatal_to
    to_capture crash_entry crash_capture log_capture write was_fatal
turns = (_, turn (turn begins [] _ _ _ refl) (_ ∷ []) _ _ [] refl)

one_signal_example :
    (asked : List (Request Kept)) × (spoken.workers 4 ≡ issue_all asked (start.workers 4))
    × (fatals asked ≡ (if spoken.signals.first_exit == 0 then 0 else 1))
unfolding raise raise_sigabrt_and_access_violation_threads raise_sigabrt_steps
    access_violation_steps trigger_exit expected_to_have_died was_fatal k_signals
one_signal_example =
    one_signal build no_hook no_handler 4 7 ends segmentation_fault threads start (at 104 [])
      (λ t. refl) ((refl, (refl, (refl, tt))), ((refl, (refl, (tt, (refl, tt)))), tt))
      (record { active = refl; no_hook = refl; no_handler = refl; handled = λ sig l. refl }) refl
      (omega arith) turns.1
