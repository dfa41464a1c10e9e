-- ===== src/Capture/Crashes.antt =====
-- src/crashhandler_unix.cpp, src/logcapture.cpp and src/g3log.cpp: from a signal to the worker.
use myg3log.Base.{ℕ, ◌≡◌, refl, arith, List, [], ◌++◌, Option, none, some}
use myg3log.Base.Int.{ℤ, pos}
use myg3log.Base.Text.{Text, codes, c_str}
use myg3log.Levels.{was_fatal, fatal_signal}
use myg3log.Message.{FatalMessage}
use myg3log.Crash.Signals.{Handling, signal_handler, signal_text, should_do_exit}
use myg3log.Crash.Stack.{stackdump}
use myg3log.Logger.{Control, Hook, Logger, Build}
use myg3log.Logger.Save.{save_message}
use myg3log.Logger.Recursion.{Sent, fatal-Sent}
use myg3log.Capture.{LogCapture, log_capture, crash_capture, write, to_capture, destroy}

module _ (build : Build) {R : Type 0} (run_hook : ℕ → Logger R → Logger R)
    (run_handler : ℕ → FatalMessage → Logger R → Logger R) (demangle : Text → Option Text)
    (backtrace : List Text) where
  -- The dump that the crash handler takes, `stackdump()`.
  unfoldable pub crash_dump : Text
  unfolding stackdump
  crash_dump = stackdump demangle backtrace none

  -- The capture of the crash handler, with its text.
  unfoldable pub crash_entry : ℤ → Text → LogCapture
  unfolding crash_capture write
  crash_entry signal_number text =
      write text
        (crash_capture demangle backtrace fatal_signal signal_number (some (c_str crash_dump)))

  -- `signalHandler(signal_number, info, unused_context)` as a step of the logging system: the
  -- thread sleeps, or a capture is written and destroyed.
  unfoldable pub handle_signal : ℤ → (pid now thread : ℕ) → Logger R → Logger R
  unfolding signal_handler destroy crash_entry
  handle_signal signal_number pid now thread s =
      let (handling, signals') = signal_handler signal_number pid crash_dump s.signals in
      let s' = record s { signals = signals' } in
      elim handling [
        | Handling.sleeps ↦ record s' { control = Control.blocked }
        | Handling.logs text d ↦
            destroy build run_hook run_handler now thread (crash_entry signal_number text) s'
      ]

  -- The first signal of a process, while a worker is active, the hook does nothing, no handler is
  -- set, and no fatal message was there before: the worker is sent a fatal message at the level
  -- FATAL_SIGNAL, with the number of the signal, the text on the signal and behind it the stack
  -- dump. The thread sleeps.
  pub first_signal-Sent :
      (signal_number : ℤ) (pid now thread w : ℕ) (s : Logger R)
      → s.signals.first_exit ≡ 0
      → s.logger_instance ≡ some w
      → s.hook ≡ Hook.does_nothing
      → s.fatal_handler ≡ none
      → s.recursive_counter ≡ 0
      → s.control ≡ Control.running
      → Sent build run_hook run_handler w
          (record {
            entry = c_str (signal_text signal_number pid);
            file = [];
            line = pos 0;
            function = [];
            level = fatal_signal;
            expression = [];
            fatal_signal = signal_number;
            stack_trace = c_str (
                codes "\n*******\tSTACKDUMP *******\n"
                ++ stackdump demangle backtrace (some (c_str crash_dump)));
            now = now;
            thread = thread;
          })
          (c_str (
            codes "\n*******\tSTACKDUMP *******\n"
            ++ stackdump demangle backtrace (some (c_str crash_dump))))
          s
          (handle_signal signal_number pid now thread s)
  unfolding handle_signal signal_handler should_do_exit destroy to_capture crash_entry write
      crash_capture log_capture was_fatal
  first_signal-Sent signal_number pid now thread w s first l h d n r =
      let s1 = record s { signals = (should_do_exit s.signals).1 } in
      let c = to_capture now thread (crash_entry signal_number (signal_text signal_number pid)) in
      let sent = fatal-Sent build run_hook run_handler w c s1 refl l h d n r in
      let e : handle_signal signal_number pid now thread s
          ≡ save_message build run_hook run_handler c s1 =
        ground (arith, first) in
      rw e (record { sleeps = sent.sleeps; one_message = sent.one_message })
