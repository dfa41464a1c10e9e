-- ===== src/Crash/Reason.antt =====
-- Signal numbers (those of Linux) and their names: `exitReasonName` and `signalToStr`.
use myg3log.Base.{◌++◌, Option, none, some, if◌then◌else◌}
use myg3log.Base.Int.{ℤ, pos, eqb_ℤ}
use myg3log.Base.Text.{Text, codes}
use myg3log.Base.Decimal.{int_to_string}
use myg3log.Levels.{Level}

abbrev pub sigill : ℤ
sigill = pos 4

abbrev pub sigabrt : ℤ
sigabrt = pos 6

abbrev pub sigfpe : ℤ
sigfpe = pos 8

abbrev pub sigsegv : ℤ
sigsegv = pos 11

abbrev pub sigterm : ℤ
sigterm = pos 15

-- `exitReasonName(level, fatal_id)`.
unfoldable pub exit_reason_name : Level → ℤ → Text
exit_reason_name level fatal_id =
    if eqb_ℤ fatal_id sigabrt
    then codes "SIGABRT"
    else if eqb_ℤ fatal_id sigfpe
    then codes "SIGFPE"
    else if eqb_ℤ fatal_id sigsegv
    then codes "SIGSEGV"
    else if eqb_ℤ fatal_id sigill
    then codes "SIGILL"
    else if eqb_ℤ fatal_id sigterm
    then codes "SIGTERM"
    else codes "UNKNOWN SIGNAL(" ++ int_to_string fatal_id ++ codes ") for " ++ level.text

-- `signalToStr(signal_number)`, given what `strsignal` returns.
unfoldable pub signal_to_str : (ℤ → Option Text) → ℤ → Text
signal_to_str strsignal signal_number = elim (strsignal signal_number) [
  | none ↦ codes "Unknown signal " ++ int_to_string signal_number
  | some name ↦ name
]
