-- ===== src/CustomSink.antt =====
-- src/g3log/sinks/custom_sink.cpp: the coloured console sink, and the set-up of logging by flags.
pub mod Setup
pub mod Tests
use myg3log.Base.{ℕ, Bool, true, false, List, [], ◌∷◌, ◌++◌, Option, none, some, if◌then◌else◌}
use myg3log.Base.Int.{ℤ, pos, eqb_ℤ, leb_ℤ}
use myg3log.Base.Text.{Text, codes}
use myg3log.Base.Decimal.{decimal, int_to_string}
use myg3log.Levels.{Level, debug, info, warning, error, fatal, was_fatal}
use myg3log.Time.{Platform}
use myg3log.Message.{LogMessage, short_level, timestamp_text, default_time_format}
use myg3log.Active.{Active}
use myg3log.Sink.{Sink}
use myg3log.FileSink.{Environment, FileSink}
use myg3log.LogWorker.{Worker, Job, Adding, aborts, returns, add_wrapped_sink, add_default_logger}
use myg3log.Logger.{Logger, Build, initialize_logging, put}

-- `enum FG_Color`.
abbrev pub yellow : ℕ
yellow = 33

abbrev pub red : ℕ
red = 31

abbrev pub green : ℕ
green = 32

abbrev pub white : ℕ
white = 97

-- `GetColor(level)`.
unfoldable pub get_color : Level → ℕ
get_color level =
    if eqb_ℤ level.value warning.value
    then yellow
    else if eqb_ℤ level.value debug.value
    then green
    else if eqb_ℤ level.value error.value
    then red
    else if was_fatal level
    then red
    else white

module _ (env : Environment) where
  -- `ColoredFormatting(msg)`.
  unfoldable pub colored_formatting : LogMessage → Text
  unfolding get_color
  colored_formatting m =
      27 ∷ codes "["
      ++ decimal (get_color m.level)
      ++ codes "m"
      ++ short_level m.entry
      ++ timestamp_text env.platform env.show_thread default_time_format m.entry
      ++ codes " "
      ++ m.file
      ++ codes "->"
      ++ m.function
      ++ codes ":"
      ++ int_to_string m.line
      ++ codes "] "
      ++ m.message
      ++ 27 ∷ codes "[m"

  -- `PrintMessage(logEntry)`, for a threshold, on what `std::clog` has.
  unfoldable pub print_message : ℤ → LogMessage → Text → Text
  print_message threshold m clog =
      if leb_ℤ threshold m.level.value then clog ++ (colored_formatting m ++ codes "\n") else clog

-- The flags that `InitG3Logging` reads.
pub record Flags : Type 0 where
  pub stderrthreshold : ℤ
  pub logtostderr : Bool
  pub alsologtostderr : Bool
  pub log_dir : Text
  pub log_link : Text

-- The `switch` over the flag for the threshold.
unfoldable pub threshold_of : ℤ → ℤ
threshold_of flag =
    if eqb_ℤ flag (pos 0)
    then debug.value
    else if eqb_ℤ flag (pos 1)
    then warning.value
    else if eqb_ℤ flag (pos 2)
    then error.value
    else if eqb_ℤ flag (pos 3)
    then fatal.value
    else error.value

-- The threshold that `InitG3Logging` leaves.
unfoldable pub init_threshold : Flags → ℤ
unfolding threshold_of
init_threshold flags =
    if flags.logtostderr
    then debug.value
    else if flags.alsologtostderr
    then debug.value
    else threshold_of flags.stderrthreshold

-- `SetStderrLogging(level)`: the new threshold.
unfoldable pub set_stderr_logging : Level → ℤ
set_stderr_logging level = level.value

-- `console` is the sink of a `CustomSink`, and `file_sink` gives the sink of a file sink.
module _ (build : Build) {R : Type 0} (flags : Flags) (console : Sink R)
    (file_sink : FileSink → Sink R) (now : ℕ) (prefix : Text) where
  -- The sinks that `InitG3Logging` adds.
  unfoldable pub init_sinks : Active (Job R) × Worker R → Option (Adding R)
  unfolding add_wrapped_sink
  init_sinks bg = elim (add_wrapped_sink build.env console bg) [
    | none ↦ none
    | some bg1 ↦
        if flags.logtostderr
        then some (returns bg1)
        else add_default_logger build.env now flags.log_link file_sink prefix flags.log_dir bg1
  ]

  -- `InitG3Logging(prefix)`, for the worker `w` with the state of its thread; the inner `none` is an
  -- abort, and the first part of the result the threshold.
  unfoldable pub init_g3_logging :
      ℕ → Worker R → Logger R → Option (Option (ℤ × Worker R × Logger R))
  unfolding init_sinks init_threshold
  init_g3_logging w worker s = elim (init_sinks (s.workers w, worker)) [
    | none ↦ none
    | some aborts ↦ some none
    | some (returns (bg, worker')) ↦ some (
        some (
          init_threshold flags,
          worker',
          initialize_logging build (some w) (record s { workers = put s.workers w bg }),
        ))
  ]
