-- ===== src/Macros.antt =====
-- src/g3log/g3log.hpp: the macros for logging. A macro with a counter has its own static counters
-- at every place it is written. What the macros decide is whether a message is logged; the table
-- of the levels is state, since `logLevel` can add an entry.
pub mod Counters
pub mod Statements
pub mod Debug
pub mod Sending
pub mod Contracts
pub mod Programs
pub mod ProgramLog
pub mod Tests
use myg3log.Base.{
  ℕ, zero, suc, ◌+◌, ◌-◌, ◌%◌, ◌≤◌, Bool, true, false, not, ◌&&◌, if◌then◌else◌, ◌==◌, ltb, leb,
  Option, none, some, List,
}
use myg3log.Base.Int.{ℤ, pos}
use myg3log.Base.Text.{Text, codes}
use myg3log.Levels.{Level, LogLevels, log_level, debug, contract}
use myg3log.Crash.Reason.{sigabrt}
use myg3log.Capture.{LogCapture, log_capture, write}

-- The static counters of a place in the source.
pub record Site : Type 0 where
  pub occurrences : ℕ
  pub occurrences_mod_n : ℕ

abbrev pub new_site : Site
new_site = record { occurrences = 0; occurrences_mod_n = 0 }

module _ (dynamic : Bool) where
  -- `GLOG_LOG(level)`, and `GLOG_LOGF`.
  unfoldable pub glog_log : Level → LogLevels → Bool × LogLevels
  glog_log level levels = log_level dynamic level levels

  -- `GLOG_LOG_IF(level, boolean_expression)`, and `GLOG_LOGF_IF`.
  unfoldable pub glog_log_if : Level → Bool → LogLevels → Bool × LogLevels
  glog_log_if level boolean_expression levels =
      if boolean_expression then log_level dynamic level levels else (false, levels)

  -- `GLOG_VLOG(verboselevel)`, with the flag `v`.
  unfoldable pub glog_vlog : (flags_v verboselevel : ℕ) → LogLevels → Bool × LogLevels
  unfolding glog_log_if
  glog_vlog flags_v verboselevel levels = glog_log_if debug (leb verboselevel flags_v) levels

  -- `GLOG_LOG_EVERY_N(level, n)`, with counters that do not overflow.
  unfoldable pub glog_log_every_n : Level → ℕ → Site → LogLevels → Bool × Site × LogLevels
  glog_log_every_n level n site levels =
      let counted = site.occurrences_mod_n + 1 in
      let mod_n = if ltb n counted then counted - n else counted in
      let site' : Site = record { occurrences = site.occurrences + 1; occurrences_mod_n = mod_n } in
      if mod_n == 1
      then (let (on, levels') = log_level dynamic level levels in (on, site', levels'))
      else (false, site', levels)

  -- `GLOG_LOG_IF_EVERY_N(level, condition, n)`, for an `n` above 0. The level only goes into the
  -- message.
  unfoldable pub glog_log_if_every_n : Level → Bool → ℕ → Site → LogLevels → Bool × Site × LogLevels
  glog_log_if_every_n level condition n site levels =
      let mod_n = (site.occurrences_mod_n + 1) % n in
      if condition
      then (
        mod_n == (1 % n),
        record { occurrences = site.occurrences + 1; occurrences_mod_n = mod_n },
        levels,
      )
      else (false, record site { occurrences = site.occurrences + 1 }, levels)

  -- `LOG_FIRST_N(level, n)`.
  unfoldable pub log_first_n : Level → ℕ → Site → LogLevels → Bool × Site × LogLevels
  log_first_n level n site levels =
      let occurrences = if leb site.occurrences n then site.occurrences + 1 else site.occurrences in
      let site' : Site = record site { occurrences = occurrences } in
      if leb occurrences n
      then (let (on, levels') = log_level dynamic level levels in (on, site', levels'))
      else (false, site', levels)

-- `CHECK(boolean_expression)`, with the text of the expression, and `CHECKF`: the entry that a
-- broken contract opens.
unfoldable pub check :
    (demangle : Text → Option Text) (backtrace : List Text) (file : Text) (line : ℤ)
    (function expression : Text)
    → Bool
    → Option LogCapture
unfolding log_capture
check demangle backtrace file line function expression true = none
check demangle backtrace file line function expression false =
    some (log_capture demangle backtrace file line function contract expression sigabrt none)

-- `CheckNotNull(file, line, names, t)`: the entry of a null pointer. Its place is that of the
-- function itself, in `this_file`, not the one given.
unfoldable pub check_not_null :
    (demangle : Text → Option Text) (backtrace : List Text) (this_file this_function : Text)
    (file : Text) (line : ℤ) (names : Text)
    → Bool
    → Option LogCapture
unfolding check
check_not_null demangle backtrace this_file this_function file line names is_null =
    check demangle backtrace this_file (pos 379) this_function names (not is_null)
