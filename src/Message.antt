-- ===== src/Message.antt =====
-- src/logmessage.cpp and src/g3log/logmessage.hpp: a log entry and its text.
pub mod Build
pub mod Format
pub mod Copies
pub mod Tests
use myg3log.Base.{ℕ, ◌+◌, Bool, true, false, List, [], ◌∷◌, ◌++◌, if◌then◌else◌, take}
use myg3log.Base.Int.{ℤ, pos, eqb_ℤ}
use myg3log.Base.Text.{Text, codes, after_last}
use myg3log.Base.Decimal.{int_to_string}
use myg3log.Levels.{Level, was_fatal, fatal, contract, fatal_signal, fatal_exception}
use myg3log.Time.{Platform, localtime_formatted, to_system_time, date_formatted, time_formatted}
use myg3log.Crash.Reason.{exit_reason_name}

-- The fields of `struct LogMessage` that hold the entry.
pub record Entry : Type 0 where
  pub timestamp : ℕ
  pub call_thread_id : ℕ
  pub file : Text
  pub file_path : Text
  pub line : ℤ
  pub function : Text
  pub level : Level
  pub expression : Text
  pub message : Text

-- A function that formats the details; the source's take the whole message, and read these fields.
abbrev pub LogDetailsFunc : Type 0
LogDetailsFunc = Entry → Text

-- `struct LogMessage`: the entry and the mutable `_logDetailsToStringFunc`.
pub record LogMessage : Type 0 where
  pub details : LogDetailsFunc
  pub entry : Entry
  pub open entry use *

-- `struct FatalMessage`.
pub record FatalMessage : Type 0 where
  pub log_message : LogMessage
  pub signal_id : ℤ

-- `splitFileName`: the text behind the last of `(`, `/` and `\`.
unfoldable pub split_file_name : Text → Text
split_file_name str = after_last (b'(' ∷ b'/' ∷ b'\\' ∷ []) str

-- `shortLevel()`.
unfoldable pub short_level : Entry → Text
short_level e = take 1 e.level.text

-- The default argument of `timestamp`.
unfoldable pub default_time_format : Text
unfolding date_formatted time_formatted codes
default_time_format = date_formatted ++ codes " " ++ time_formatted

-- The text of a `std::thread::id` is up to the library.
module _ (platform : Platform) (show_thread : ℕ → Text) where
  -- `timestamp(time_format)`.
  unfoldable pub timestamp_text : Text → Entry → Text
  timestamp_text time_format e =
      localtime_formatted platform (to_system_time platform e.timestamp) time_format

  abbrev default_timestamp : Entry → Text
  default_timestamp e = timestamp_text default_time_format e

  -- `threadID()`.
  unfoldable pub thread_id : Entry → Text
  thread_id e = show_thread e.call_thread_id

  -- `DefaultLogDetailsToString`.
  unfoldable pub default_log_details : LogDetailsFunc
  default_log_details e =
      short_level e
      ++ default_timestamp e
      ++ codes " "
      ++ e.file
      ++ codes "->"
      ++ e.function
      ++ codes ":"
      ++ int_to_string e.line
      ++ codes "] "

  -- `FullLogDetailsToString`.
  unfoldable pub full_log_details : LogDetailsFunc
  full_log_details e =
      default_timestamp e
      ++ codes "\t"
      ++ e.level.text
      ++ codes " ["
      ++ thread_id e
      ++ codes " "
      ++ e.file
      ++ codes "->"
      ++ e.function
      ++ codes ":"
      ++ int_to_string e.line
      ++ codes "]\t"

  -- `fatalSignalToString`.
  unfoldable pub fatal_signal_to_string : LogMessage → Text
  fatal_signal_to_string m =
      default_timestamp m.entry
      ++ codes "\n\n***** FATAL SIGNAL RECEIVED ******* \n"
      ++ m.message
      ++ codes "\n"

  -- `fatalExceptionToString`.
  unfoldable pub fatal_exception_to_string : LogMessage → Text
  fatal_exception_to_string m =
      default_timestamp m.entry
      ++ codes "\n\n***** FATAL EXCEPTION RECEIVED ******* \n"
      ++ m.message
      ++ codes "\n"

  -- `fatalLogToString`.
  unfoldable pub fatal_log_to_string : LogMessage → Text
  fatal_log_to_string m =
      m.details m.entry
      ++ codes "\n\t*******\t "
      ++ codes "EXIT trigger caused by LOG(FATAL) entry: "
      ++ codes "\n\t"
      ++ codes "\""
      ++ m.message
      ++ codes "\""

  -- `fatalCheckToString`.
  unfoldable pub fatal_check_to_string : LogMessage → Text
  fatal_check_to_string m =
      m.details m.entry
      ++ codes "\n\t*******\t "
      ++ codes "EXIT trigger caused by broken Contract:"
      ++ codes " CHECK("
      ++ m.expression
      ++ codes ")\n\t"
      ++ codes "\""
      ++ m.message
      ++ codes "\""

  -- `normalToString`.
  unfoldable pub normal_to_string : LogMessage → Text
  normal_to_string m = m.details m.entry ++ (m.message ++ codes "\n")

  -- The last lines of `toString`, for a fatal level that is none of the known ones.
  unfoldable pub custom_to_string : LogMessage → Text
  custom_to_string m =
      m.details m.entry
      ++ codes "\t*******"
      ++ codes "UNKNOWN or Custom made Log Message Type"
      ++ codes "\n\t"
      ++ m.message
      ++ codes "\n"

  -- `overrideLogDetailsFunc(func)`, on the `mutable` member.
  unfoldable pub override_log_details : LogDetailsFunc → LogMessage → LogMessage
  override_log_details func m = record m { details = func }

  -- The text of a message whose details function is set.
  unfoldable pub render : LogMessage → Text
  render m =
      if was_fatal m.level
      then if eqb_ℤ fatal_signal.value m.level.value
        then fatal_signal_to_string m
        else if eqb_ℤ fatal_exception.value m.level.value
        then fatal_exception_to_string m
        else if eqb_ℤ fatal.value m.level.value
        then fatal_log_to_string m
        else if eqb_ℤ contract.value m.level.value
        then fatal_check_to_string m
        else custom_to_string m
      else normal_to_string m

  -- `toString(formattingFunc)`: the message, changed in its details function, and the text.
  unfoldable pub to_string : LogDetailsFunc → LogMessage → LogMessage × Text
  unfolding render override_log_details
  to_string formatting_func m = let m' = override_log_details formatting_func m in (m', render m')
