-- ===== src/Capture.antt =====
-- src/logcapture.cpp and src/g3log/logcapture.hpp: an entry while it is written, and what its
-- destructor hands on.
pub mod Printf
pub mod Crashes
pub mod Tests
use myg3log.Base.{
  ℕ, ◌-◌, Bool, true, false, List, [], ◌∷◌, ◌++◌, Option, none, some, if◌then◌else◌, ◌==◌, ltb,
  length, take,
}
use myg3log.Base.Int.{ℤ, pos}
use myg3log.Base.Text.{Text, codes, c_str}
use myg3log.Levels.{Level, was_fatal, fatal_signal}
use myg3log.Message.{FatalMessage}
use myg3log.Crash.Stack.{stackdump}
use myg3log.Logger.{Logger, Build, Capture}
use myg3log.Logger.Save.{save_message}

-- `struct LogCapture`.
pub record LogCapture : Type 0 where
  pub stream : Text
  pub stack_trace : Text
  pub file : Text
  pub line : ℤ
  pub function : Text
  pub level : Level
  pub expression : Text
  pub signal : ℤ

-- What the system knows of the thread: the demangler and the lines of its backtrace.
module _ (demangle : Text → Option Text) (backtrace : List Text) where
  -- `LogCapture(file, line, function, level, expression, fatal_signal, dump)`; the dump is `none`
  -- for the null pointer.
  unfoldable pub log_capture :
      (file : Text) (line : ℤ) (function : Text) (level : Level) (expression : Text) (signal : ℤ)
      (dump : Option Text)
      → LogCapture
  unfolding stackdump
  log_capture file line function level expression signal dump = record {
    stream = [];
    stack_trace =
        if was_fatal level
        then codes "\n*******\tSTACKDUMP *******\n" ++ stackdump demangle backtrace dump
        else [];
    file = file;
    line = line;
    function = function;
    level = level;
    expression = expression;
    signal = signal;
  }

  -- `LogCapture(level, fatal_signal, dump)`, for the crash handler.
  unfoldable pub crash_capture : Level → ℤ → Option Text → LogCapture
  unfolding log_capture
  crash_capture level signal dump = log_capture [] (pos 0) [] level [] signal dump

-- `stream() << text`.
unfoldable pub write : Text → LogCapture → LogCapture
write text c = record c { stream = c.stream ++ text }

-- `vsnprintf(buffer, size, …)` for the text that the format and its arguments give, `none` for a
-- format that cannot be processed: the number returned, unless it is negative, and the buffer.
unfoldable pub vsnprintf : ℕ → Option Text → Option ℕ × Text
vsnprintf size none = (none, [])
vsnprintf size (some text) = (some (length text), take (size - 1) text)

-- `capturef(printf_like_message, ...)`, for a buffer of `max_message_size` bytes: 2048 of them, or
-- with G3_DYNAMIC_MAX_MESSAGE_SIZE what `setMaxMessageSize` has set.
unfoldable pub capturef : ℕ → Text → Option Text → LogCapture → LogCapture
unfolding write vsnprintf
capturef max_message_size printf_like_message formatted c =
    let (nbrcharacters, finished_message) = vsnprintf max_message_size formatted in
    let failed =
      codes "\n\tERROR LOG MSG NOTIFICATION: Failure to successfully parse the message"
      ++ codes "\""
      ++ c_str printf_like_message
      ++ codes "\"\n" in
    elim nbrcharacters [
      | none ↦ write failed c
      | some n ↦
          if n == 0
          then write failed c
          else if ltb max_message_size n
          then write (c_str finished_message ++ codes "[...truncated...]") c
          else write (c_str finished_message) c
    ]

-- The arguments of `saveMessage` in the destructor, at the time and on the thread given.
unfoldable pub to_capture : ℕ → ℕ → LogCapture → Capture
to_capture now thread c = record {
  entry = c_str c.stream;
  file = c.file;
  line = c.line;
  function = c.function;
  level = c.level;
  expression = c.expression;
  fatal_signal = c.signal;
  stack_trace = c_str c.stack_trace;
  now = now;
  thread = thread;
}

module _ (build : Build) {R : Type 0} (run_hook : ℕ → Logger R → Logger R)
    (run_handler : ℕ → FatalMessage → Logger R → Logger R) where
  -- `~LogCapture()`.
  unfoldable pub destroy : ℕ → ℕ → LogCapture → Logger R → Logger R
  unfolding to_capture save_message
  destroy now thread c s = save_message build run_hook run_handler (to_capture now thread c) s
