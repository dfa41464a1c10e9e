-- ===== src/Crash/Signals.antt =====
-- src/crashhandler_unix.cpp: which handler stands for which signal, and what a signal leads to.
pub mod Handlers
pub mod FirstSignal
pub mod Tests
use myg3log.Base.{
  ℕ, zero, suc, ◌+◌, ◌%◌, ◌^◌, Bool, true, false, not, ◌&&◌, ◌||◌, List, [], ◌∷◌, ◌++◌, Option,
  none, some, if◌then◌else◌, ◌==◌,
}
use myg3log.Base.Int.{ℤ, eqb_ℤ}
use myg3log.Base.Text.{Text, codes}
use myg3log.Base.Decimal.{decimal, int_to_string}
use myg3log.Levels.{Level, fatal_signal}
use myg3log.Crash.Reason.{sigabrt, sigfpe, sigill, sigsegv, sigterm, exit_reason_name}

-- What the system does at a signal: its default, the handler of this library, or another one.
pub data Action : Type 0 where
  default ours : Action
  other : ℕ → Action

-- `gSignals`, `gSavedSigActions` (a map, as a function), the actions of the system, and the counter
-- of `shouldDoExit`.
pub record Signals : Type 0 where
  pub g_signals : List (ℤ × Text)
  pub saved : ℤ → Option Action
  pub system : ℤ → Action
  pub first_exit : ℕ

-- `kSignals`, in the order of the keys.
unfoldable pub k_signals : List (ℤ × Text)
k_signals =
    (sigill, codes "SIGILL")
    ∷ (sigabrt, codes "SIGABRT")
    ∷ (sigfpe, codes "SIGFPE")
    ∷ (sigsegv, codes "SIGSEGV")
    ∷ (sigterm, codes "SIGTERM")
    ∷ []

abbrev pub update {ℓ} : {A : Type ℓ} → (ℤ → A) → ℤ → A → ℤ → A
update f k v j = if eqb_ℤ k j then v else f j

-- `shouldDoExit()`, on a counter of 64 bits.
unfoldable pub should_do_exit : Signals → Bool × Signals
should_do_exit s = (s.first_exit == 0, record s { first_exit = (s.first_exit + 1) % 2 ^ 64 })

-- What `exitWithDefaultSignalHandler(level, fatal_signal_id)` writes.
unfoldable pub exit_text : Level → ℤ → Text
exit_text level signal_number =
    codes "\n\nexitWithDefaultSignalHandler:230. Exiting due to "
    ++ level.text
    ++ codes ", "
    ++ int_to_string signal_number
    ++ codes "   \n\n"

-- What a signal leads to: the thread sleeps for good, or the text and the stack dump are logged at
-- the level FATAL_SIGNAL.
pub data Handling : Type 0 where
  sleeps : Handling
  logs : (text dump : Text) → Handling

-- The text that `signalHandler` logs.
unfoldable pub signal_text : ℤ → ℕ → Text
signal_text signal_number pid =
    let fatal_reason = exit_reason_name fatal_signal signal_number in
    codes "Received fatal signal: "
    ++ fatal_reason
    ++ codes "("
    ++ int_to_string signal_number
    ++ codes ")\tPID: "
    ++ decimal pid
    ++ codes "\n"
    ++ codes "\n***** SIGNAL "
    ++ fatal_reason
    ++ codes "("
    ++ int_to_string signal_number
    ++ codes ")\n"

-- `signalHandler(signal_number, info, unused_context)`, for the process `pid` and a stack dump.
unfoldable pub signal_handler : ℤ → ℕ → Text → Signals → Handling × Signals
unfolding should_do_exit
signal_handler signal_number pid dump s =
    let (first, s') = should_do_exit s in
    (if first then Handling.logs (signal_text signal_number pid) dump else Handling.sleeps, s')

-- The system refuses `sigaction` for some numbers; `disabled` is DISABLE_FATAL_SIGNALHANDLING.
module _ (accepts : ℤ → Bool) (disabled : Bool) where
  -- One round of the loop of `installSignalHandler`.
  unfoldable pub install_one : ℤ → Signals → Signals
  install_one sig s =
      if accepts sig
      then record s {
        saved = update s.saved sig (some (s.system sig));
        system = update s.system sig Action.ours;
      }
      else s

  unfoldable pub install_all : List (ℤ × Text) → Signals → Signals
  install_all [] s = s
  install_all ((sig, name) ∷ sigs) s = install_all sigs (install_one sig s)

  -- `installSignalHandler()`, which `installCrashHandler()` calls.
  unfoldable pub install_signal_handler : Signals → Signals
  install_signal_handler s = if disabled then s else install_all s.g_signals s

  -- `restoreSignalHandler(signal_number)`.
  unfoldable pub restore_signal_handler : ℤ → Signals → Signals
  restore_signal_handler sig s = if disabled then s else elim (s.saved sig) [
    | none ↦ s
    | some old ↦ record s {
      saved = update s.saved sig none;
      system = if accepts sig then update s.system sig old else s.system;
    }
  ]

  unfoldable pub restore_all : List (ℤ × Text) → Signals → Signals
  restore_all [] s = s
  restore_all ((sig, name) ∷ sigs) s = restore_all sigs (restore_signal_handler sig s)

  -- `overrideSetupSignals(overrideSignals)`.
  unfoldable pub override_setup_signals : List (ℤ × Text) → Signals → Signals
  override_setup_signals override_signals s =
      install_signal_handler (record (restore_all s.g_signals s) { g_signals = override_signals })

  -- `restoreSignalHandlerToDefault()`.
  unfoldable pub restore_signal_handler_to_default : Signals → Signals
  unfolding override_setup_signals k_signals
  restore_signal_handler_to_default s = override_setup_signals k_signals s

  -- `exitWithDefaultSignalHandler(level, fatal_signal_id)`, but for its text: the action that the
  -- system takes when the process sends itself the signal, behind the restored handler.
  unfoldable pub exit_with_default_signal_handler : ℤ → Signals → Action × Signals
  unfolding restore_signal_handler
  exit_with_default_signal_handler fatal_signal_id s =
      let s' = restore_signal_handler fatal_signal_id s in (s'.system fatal_signal_id, s')
