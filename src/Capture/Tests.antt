-- ===== src/Capture/Tests.antt =====
-- Runs of captured entries.
use myg3log.Base.{ℕ, ◌≡◌, refl, [], ◌∷◌, ◌++◌, Option, none, some}
use myg3log.Base.Int.{pos}
use myg3log.Base.Text.{Text, codes, c_str}
use myg3log.Levels.{fatal_signal}
use myg3log.Crash.Reason.{sigsegv}
use myg3log.Crash.Signals.{signal_text}
use myg3log.Crash.Stack.{stackdump}
use myg3log.Message.{FatalMessage}
use myg3log.Logger.{Logger}
use myg3log.Logger.Recursion.{Sent}
use myg3log.Capture.{LogCapture, capturef}
use myg3log.Capture.Printf.{capturef_lem, cut_text}
use myg3log.Capture.Crashes.{handle_signal, crash_dump, first_signal-Sent}
use myg3log.Samples.{build, active_logger, Kept}

abbrev no_demangler : Text → Option Text
no_demangler name = none

abbrev opened : LogCapture
opened = record {
  stream = [];
  stack_trace = [];
  file = [];
  line = pos 1;
  function = [];
  level = fatal_signal;
  expression = [];
  signal = sigsegv;
}

-- Three bytes for a buffer of three.
capturef_lem_example :
    (capturef 3 (b'f' ∷ []) (some (b'a' ∷ b'b' ∷ b'c' ∷ [])) opened).stream
    ≡ opened.stream ++ cut_text 3 (b'a' ∷ b'b' ∷ b'c' ∷ [])
capturef_lem_example =
    capturef_lem 3 (b'f' ∷ []) b'a' (b'b' ∷ b'c' ∷ []) opened (refl, (refl, (refl, tt)))

abbrev no_hook : ℕ → Logger Kept → Logger Kept
no_hook h s = s

abbrev no_handler : ℕ → FatalMessage → Logger Kept → Logger Kept
no_handler h f s = s

first_signal-Sent_example :
    Sent build no_hook no_handler 4
      (record {
        entry = c_str (signal_text sigsegv 7);
        file = [];
        line = pos 0;
        function = [];
        level = fatal_signal;
        expression = [];
        fatal_signal = sigsegv;
        stack_trace = c_str (
            codes "\n*******\tSTACKDUMP *******\n"
            ++ stackdump no_demangler []
                (some (c_str (crash_dump build no_hook no_handler no_demangler []))));
        now = 2;
        thread = 1;
      })
      (c_str (
        codes "\n*******\tSTACKDUMP *******\n"
        ++ stackdump no_demangler []
            (some (c_str (crash_dump build no_hook no_handler no_demangler [])))))
      active_logger
      (handle_signal build no_hook no_handler no_demangler [] sigsegv 7 2 1 active_logger)
first_signal-Sent_example =
    first_signal-Sent build no_hook no_handler no_demangler [] sigsegv 7 2 1 4 active_logger refl
      refl refl refl refl refl
