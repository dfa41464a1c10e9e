-- ===== src/TestHelpers/Tests.antt =====
-- Runs of the helpers of the unit tests.
use myg3log.Base.{ℕ, ◌≡◌, ◌↔◌, refl, true, not, ◌&&◌, List, [], ◌∷◌, ◌++◌, Option, none, some, map}
use myg3log.Base.Text.{Text, c_str}
use myg3log.Message.{LogMessage}
use myg3log.Active.Draining.{waiting}
use myg3log.Sink.Delivery.{live}
use myg3log.FileSink.{FileSink}
use myg3log.LogWorker.{Worker, save_job}
use myg3log.Logger.{Logger}
use myg3log.Logger.Save.{save_message, enter_fatal}
use myg3log.Levels.{was_fatal}
use myg3log.Samples.{build, environment, message, file_sink, capture, active_logger, Kept}
use myg3log.TestHelpers.{Files, clear_mock_fatal, mock_fatal_call, verify_content, clean, is_listed}
use myg3log.TestHelpers.Content.{Holds, verify_content_iff}
use myg3log.TestHelpers.MockFatal.{
  mock_handler, given_to_mock, Survives, Remembers, mock_fatal_call-Survives,
}
use myg3log.TestHelpers.Cleaner.{exists, missing, add_all, clean-added}
use myg3log.Pipeline.LogFile.{exit_line}
use myg3log.TestHelpers.Restore.{reset_and_retrieve_content}
use myg3log.TestHelpers.Retrieve.{file_sink_at, all_text, reset_and_retrieve_content_lem}

verify_content_iff_example :
    (verify_content (b'a' ∷ b'b' ∷ b'c' ∷ []) (b'b' ∷ b'c' ∷ []) ≡ true)
    ↔ Holds (b'a' ∷ b'b' ∷ b'c' ∷ []) (b'b' ∷ b'c' ∷ [])
verify_content_iff_example = verify_content_iff (b'a' ∷ b'b' ∷ b'c' ∷ []) (b'b' ∷ b'c' ∷ [])

abbrev no_hook : ℕ → Logger Kept → Logger Kept
no_hook h s = s

abbrev mocked_logger : Logger Kept
mocked_logger = record active_logger { fatal_handler = some 1 }

mock_fatal_call-Survives_example :
    Survives build no_hook 4 capture mocked_logger
      (save_message build no_hook (mock_handler build no_hook) capture mocked_logger)
    × Remembers build no_hook capture
        (mock_fatal_call build
          (given_to_mock build no_hook capture mocked_logger)
          (clear_mock_fatal, enter_fatal capture mocked_logger)).0
unfolding was_fatal
mock_fatal_call-Survives_example =
    mock_fatal_call-Survives build no_hook 4 1 capture clear_mock_fatal mocked_logger refl refl refl
      refl refl

-- One file is there and added twice, the other one is not there.
abbrev files : Files
files = (b'a' ∷ [], []) ∷ (b'b' ∷ [], b'x' ∷ []) ∷ []

abbrev added : List Text
added = (b'a' ∷ []) ∷ (b'c' ∷ []) ∷ (b'a' ∷ []) ∷ []

clean-added_example :
    ((clean (add_all added []) files).0 ≡ missing files (add_all added []))
    × ((q : Text)
        → exists q (clean (add_all added []) files).1 ≡ (exists q files && not (is_listed q added)))
unfolding c_str
clean-added_example = clean-added added files (refl, (refl, (refl, tt))) (refl, (refl, tt))

abbrev test_worker : Worker (Option FileSink)
test_worker = record {
  sinks = live (file_sink_at environment 6 8 file_sink) ∷ [];
  stderr = [];
  closed = [];
  logging = true;
  exited = none;
}

abbrev logged_messages : List LogMessage
logged_messages = message ∷ message ∷ []

reset_and_retrieve_content_lem_example :
    reset_and_retrieve_content environment (waiting (map save_job logged_messages), test_worker)
    ≡ some ([] ++ all_text environment 6 8 file_sink logged_messages ++ exit_line environment 8)
unfolding c_str
reset_and_retrieve_content_lem_example =
    reset_and_retrieve_content_lem environment 6 8 logged_messages file_sink _ test_worker refl refl
      refl (record { sinks = refl; closed_before = refl; running = refl })
