-- ===== src/Message/Build.antt =====
-- src/logmessage.cpp and src/g3log/logmessage.hpp: how messages are made, changed and copied.
use myg3log.Base.{ℕ, Bool, [], ◌++◌, if◌then◌else◌}
use myg3log.Base.Int.{ℤ, pos}
use myg3log.Base.Text.{Text}
use myg3log.Levels.{Level, fatal_signal}
use myg3log.Time.{Platform}
use myg3log.Crash.Reason.{exit_reason_name}
use myg3log.Message.{LogMessage, FatalMessage, default_log_details, split_file_name}

module _ (platform : Platform) (show_thread : ℕ → Text) where
  -- The constructor from the place of the call, at the time and on the thread given; with
  -- `G3_LOG_FULL_FILENAME` the file keeps its path.
  unfoldable pub create :
      Bool
      → (file : Text) (line : ℤ) (function : Text) (level : Level) (now thread : ℕ) → LogMessage
  create full_filename file line function level now thread = record {
    details = default_log_details platform show_thread;
    entry = record {
      timestamp = now;
      call_thread_id = thread;
      file = if full_filename then file else split_file_name file;
      file_path = file;
      line = line;
      function = function;
      level = level;
      expression = [];
      message = [];
    };
  }

  -- The constructor from a crash message.
  unfoldable pub create_crash : Bool → Text → ℕ → ℕ → LogMessage
  unfolding create
  create_crash full_filename crash_message now thread =
      let m = create full_filename [] (pos 0) [] fatal_signal now thread in
      record m { entry = record (m.entry) { message = crash_message } }

-- `write().append(text)`.
unfoldable pub append_message : Text → LogMessage → LogMessage
append_message text m = record m { entry = record (m.entry) { message = m.message ++ text } }

-- `setExpression(expression)`.
unfoldable pub set_expression : Text → LogMessage → LogMessage
set_expression expression m = record m { entry = record (m.entry) { expression = expression } }

-- The copy constructor, field by field.
unfoldable pub copy : LogMessage → LogMessage
copy other = record {
  details = other.details;
  entry = record {
    timestamp = other.timestamp;
    call_thread_id = other.call_thread_id;
    file = other.file;
    file_path = other.file_path;
    line = other.line;
    function = other.function;
    level = other.level;
    expression = other.expression;
    message = other.message;
  };
}

-- `swap(first, second)`, which names eight of the members.
unfoldable pub swap : LogMessage → LogMessage → LogMessage × LogMessage
swap first second = (exchange first second, exchange second first)
  where
    exchange : LogMessage → LogMessage → LogMessage
    exchange mine other = record {
      details = mine.details;
      entry = record {
        timestamp = other.timestamp;
        call_thread_id = other.call_thread_id;
        file = other.file;
        file_path = mine.file_path;
        line = other.line;
        function = other.function;
        level = other.level;
        expression = other.expression;
        message = other.message;
      };
    }

-- `operator=`: the argument is a copy.
unfoldable pub assign : LogMessage → LogMessage → LogMessage
unfolding swap copy
assign this other = (swap this (copy other)).0

-- `FatalMessage(details, signal_id)`.
unfoldable pub fatal_message : LogMessage → ℤ → FatalMessage
unfolding copy
fatal_message m signal_id = record { log_message = copy m; signal_id = signal_id }

-- `copyToLogMessage()`.
unfoldable pub copy_to_log_message : FatalMessage → LogMessage
unfolding copy
copy_to_log_message f = copy f.log_message

-- `reason()`.
unfoldable pub reason : FatalMessage → Text
reason f = exit_reason_name f.log_message.level f.signal_id
