-- ===== src/Logger/Tests.antt =====
-- Runs of the logging system with the worker 4.
use myg3log.Base.{ℕ, refl, [], ◌∷◌, some}
use myg3log.Levels.{was_fatal}
use myg3log.Message.{FatalMessage}
use myg3log.Logger.{Hook, Logger, Capture, initialize_logging}
use myg3log.Logger.Save.{save_message}
use myg3log.Logger.Start.{Started, push_all, first_message_kept}
use myg3log.Logger.Recursion.{Sent, recursion_text, recursive_crash}
use myg3log.Samples.{build, logger, active_logger, Kept, message, capture}

abbrev no_hook : ℕ → Logger Kept → Logger Kept
no_hook h s = s

abbrev no_handler : ℕ → FatalMessage → Logger Kept → Logger Kept
no_handler h f s = s

-- The crash in the hook.
abbrev nested : Capture
nested = record capture { stack_trace = b'u' ∷ [] }

abbrev crashing_hook : ℕ → Logger Kept → Logger Kept
crashing_hook h s = save_message build no_hook no_handler nested s

first_message_kept_example :
    Started 4 message logger
      (initialize_logging build (some 4) (push_all (message ∷ message ∷ []) logger))
first_message_kept_example = first_message_kept build 4 message (message ∷ []) logger refl refl refl

recursive_crash_example :
    Sent build crashing_hook no_handler 4 nested
      (recursion_text nested capture)
      (record active_logger { hook = Hook.user 2 })
      (save_message build crashing_hook no_handler capture
        (record active_logger { hook = Hook.user 2 }))
unfolding save_message was_fatal
recursive_crash_example =
    recursive_crash build crashing_hook no_handler 2 4 capture nested
      (record active_logger { hook = Hook.user 2 }) refl refl refl refl refl refl refl refl refl
