-- ===== src/Macros/Tests.antt =====
-- Runs of the macros with counters.
use myg3log.Base.{
  ℕ, ◌≡◌, ◌+◌, ◌*◌, refl, arith, true, false, not, [], ◌∷◌, Option, none, ◌==◌, ltb, leb,
}
use myg3log.Base.Int.{pos}
use myg3log.Base.Text.{Text}
use myg3log.Message.{FatalMessage}
use myg3log.Logger.{Logger}
use myg3log.Levels.{
  LogLevels, log_level, log_level_defaults, find, disable_all, set_all, info, debug, was_fatal,
}
use myg3log.Macros.{new_site, glog_log_every_n}
use myg3log.Macros.Statements.{Place, Comparisons, log_statement}
use myg3log.Macros.Sending.{Stated, log_statement-Stated}
use myg3log.Samples.{build, active_logger, Kept}
use myg3log.Macros.Counters.{passes, every_n_lem}

info_on : log_level true info log_level_defaults ≡ (true, log_level_defaults)
unfolding log_level log_level_defaults find
info_on = refl

every_n_lem_example :
    let now = passes (glog_log_every_n true info 3) (2 * 3 + 0) (new_site, log_level_defaults) in
    (glog_log_every_n true info 3 now.0 now.1).0 ≡ (0 == 0)
every_n_lem_example = every_n_lem true info log_level_defaults info_on 3 2 0 (omega arith)

abbrev all_off : LogLevels
all_off = disable_all log_level_defaults

debug_off : log_level true debug all_off ≡ (false, all_off)
unfolding log_level disable_all set_all log_level_defaults find
debug_off = refl

abbrev no_demangler : Text → Option Text
no_demangler name = none

abbrev place : Place
place = record {
  file = b'/' ∷ b'f' ∷ [];
  line = pos 3;
  function = b'g' ∷ [];
  now = 9;
  thread = 1;
  demangle = no_demangler;
  backtrace = [];
}

abbrev no_hook : ℕ → Logger Kept → Logger Kept
no_hook h s = s

abbrev no_handler : ℕ → FatalMessage → Logger Kept → Logger Kept
no_handler h f s = s

log_statement-Stated_example :
    Stated build no_hook no_handler place info
      (b'm' ∷ [])
      4
      active_logger
      (log_statement build no_hook no_handler place info (b'm' ∷ []) active_logger)
unfolding was_fatal
log_statement-Stated_example =
    log_statement-Stated build no_hook no_handler place info (b'm' ∷ []) 4 active_logger refl refl

abbrev numbers : Comparisons ℕ
numbers = record {
  eq = λ a b. a == b;
  ne = λ a b. not (a == b);
  le = leb;
  lt = ltb;
  ge = λ a b. leb b a;
  gt = λ a b. ltb b a;
}
