-- ===== src/Crash/Signals/FirstSignal.antt =====
-- src/crashhandler_unix.cpp: only the first signal of a process is logged.
use myg3log.Base.{length, replicate, ℕ, ◌+◌, ◌<◌, ◌%◌, ◌^◌, ◌≡◌, refl, arith, List, [], ◌∷◌}
use myg3log.Base.Int.{ℤ}
use myg3log.Base.Text.{Text}
use myg3log.Crash.Signals.{Signals, Handling, signal_text, signal_handler}

-- The signals that a process gets, each with a stack dump, and what becomes of them.
unfoldable pub handle_all : ℕ → List (ℤ × Text) → Signals → List Handling
handle_all pid [] s = []
handle_all pid ((sig, dump) ∷ sigs) s =
    let (handling, s') = signal_handler sig pid dump s in handling ∷ handle_all pid sigs s'

later_sleep :
    (pid : ℕ) (sigs : List (ℤ × Text)) (s : Signals)
    → 0 < s.first_exit
    → s.first_exit + length sigs < 2 ^ 64
    → handle_all pid sigs s ≡ replicate (length sigs) Handling.sleeps
unfolding handle_all signal_handler
later_sleep pid [] s p h = refl
later_sleep pid ((sig, dump) ∷ sigs) s p h =
    let s' : Signals = record s { first_exit = (s.first_exit + 1) % 2 ^ 64 } in
    ground (arith, later_sleep pid sigs s' (omega arith) (omega arith))

-- Of the signals that a process gets, fewer than 2 ^ 64, the first is logged, with its text and
-- stack dump, and the threads of all others sleep.
pub only_first_logs :
    (pid : ℕ) (sig : ℤ) (dump : Text) (sigs : List (ℤ × Text)) (s : Signals)
    → s.first_exit ≡ 0
    → length sigs + 1 < 2 ^ 64
    → handle_all pid ((sig, dump) ∷ sigs) s
      ≡ Handling.logs (signal_text sig pid) dump ∷ replicate (length sigs) Handling.sleeps
unfolding handle_all signal_handler
only_first_logs pid sig dump sigs s z h =
    let s' : Signals = record s { first_exit = (s.first_exit + 1) % 2 ^ 64 } in
    ground (arith, later_sleep pid sigs s' (omega arith) (omega arith))
