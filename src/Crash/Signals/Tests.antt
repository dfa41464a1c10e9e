-- ===== src/Crash/Signals/Tests.antt =====
-- Runs of the handlers for signals.
use myg3log.Base.{some, ◌≡◌, refl, arith, true, false, Bool, List, [], ◌∷◌, length, replicate}
use myg3log.Base.Int.{ℤ}
use myg3log.Base.Text.{Text}
use myg3log.Crash.Reason.{sigsegv, sigabrt}
use myg3log.Crash.Signals.{
  install_all, install_one, Action, Signals, Handling, signal_text, install_signal_handler,
  override_setup_signals, exit_with_default_signal_handler,
}
use myg3log.Crash.Signals.Handlers.{
  Installed, install-Installed, override-Installed, exit-before, install_twice,
}
use myg3log.Crash.Signals.FirstSignal.{handle_all, only_first_logs}
use myg3log.Samples.{signals}

abbrev accepts : ℤ → Bool
accepts sig = true

abbrev installed : Signals
installed = install_signal_handler accepts false signals

installed_once : Installed accepts signals.system installed.g_signals installed
unfolding install_signal_handler install_all install_one
installed_once = install-Installed accepts signals (refl, tt) (λ sig. refl)

override-Installed_example :
    Installed accepts signals.system
      ((sigabrt, b'a' ∷ []) ∷ [])
      (override_setup_signals accepts false ((sigabrt, b'a' ∷ []) ∷ []) installed)
override-Installed_example =
    override-Installed accepts signals.system ((sigabrt, b'a' ∷ []) ∷ []) installed (refl, tt)
      installed_once

exit-before_example :
    (exit_with_default_signal_handler accepts false sigsegv installed).0 ≡ signals.system sigsegv
exit-before_example = exit-before accepts signals.system sigsegv installed installed_once

install_twice_example :
    ((install_signal_handler accepts false installed).saved sigsegv ≡ some Action.ours)
    × ((exit_with_default_signal_handler accepts false sigsegv
          (install_signal_handler accepts false installed)).0
        ≡ Action.ours)
unfolding install_signal_handler install_all install_one
install_twice_example =
    install_twice accepts signals.system sigsegv installed (refl, tt) refl refl installed_once

abbrev more : List (ℤ × Text)
more = (sigabrt, []) ∷ []

only_first_logs_example :
    handle_all 7 ((sigsegv, b'd' ∷ []) ∷ more) signals
    ≡ Handling.logs (signal_text sigsegv 7) (b'd' ∷ []) ∷ replicate (length more) Handling.sleeps
only_first_logs_example = only_first_logs 7 sigsegv (b'd' ∷ []) more signals refl (omega arith)
