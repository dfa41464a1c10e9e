-- ===== src/FatalChoice/Threads/Asking.antt =====
-- src/crashhandler_unix.cpp and src/g3log.cpp: what statements, fatal messages and signals ask of the
-- worker.
use myg3log.Base.{
  ℕ, suc, ◌+◌, ◌^◌, ◌<◌, ◌≤◌, ◌≡◌, refl, sym, subst, ◌∙◌, ap, arith, Bool, true, false, List, [],
  ◌∷◌, none, some, if◌then◌else◌, ◌==◌, inl, inr, Bool-cases, Option-cases,
}
use myg3log.Base.Int.{ℤ}
use myg3log.Levels.{LogLevels, was_fatal}
use myg3log.Crash.Signals.{Action, k_signals, signal_handler, should_do_exit, signal_text}
use myg3log.Crash.Signals.Handlers.{listed}
use myg3log.Message.{FatalMessage}
use myg3log.Logger.{
  Control, Hook, Logger, Build, Capture, then_do, fatal_to, push_message_to_logger, save_to,
}
use myg3log.Logger.Save.{
  fatal_text, save_message, captured, call_hook, enter_fatal, leave_fatal, fatal_call,
  push_fatal_message_to_logger,
}
use myg3log.Capture.{
  LogCapture, capturef, vsnprintf, write, to_capture, destroy, log_capture, crash_capture,
}
use myg3log.Capture.Crashes.{handle_signal, crash_entry}
use myg3log.Macros.Statements.{Place, PrintfCall, log_if_on}
use myg3log.Logger.Start.{put_same}
use myg3log.LogWorker
use myg3log.Message.Build.{fatal_message, append_message}
use myg3log.Macros.Programs.{issue_all}
use myg3log.Pipeline.{Request, save_request, fatal_request, issue}
use myg3log.FatalChoice.Functions.{raise}

module _ {R : Type 0} where
  -- How many fatal messages are asked for.
  abbrev pub fatals : List (Request R) → ℕ
  fatals [] = 0
  fatals (save_request m ∷ rs) = fatals rs
  fatals (fatal_request f ∷ rs) = suc (fatals rs)
  fatals (r ∷ rs) = fatals rs

-- The fatal messages between two values of the counter of signals.
abbrev pub first_of : ℕ → ℕ → ℕ
first_of before behind = if before == 0 then if behind == 0 then 0 else 1 else 0

pub capturef-level :
    (size : ℕ) (call : PrintfCall) (c : LogCapture)
    → (capturef size call.printf_like_message call.formatted c).level ≡ c.level
unfolding capturef vsnprintf write
capturef-level size call c = elim (Option-cases call.formatted) [
  | inl e ↦ ground (arith, e)
  | inr (t, e) ↦ ground (arith, e)
]

module _ (build : Build) {R : Type 0} (run_hook : ℕ → Logger R → Logger R)
    (run_handler : ℕ → FatalMessage → Logger R → Logger R) (w : ℕ) where
  -- Worker `w` is active, the hook does nothing, no handler is set, and the signals of the library
  -- are handled.
  pub record Steady (s : Logger R) : Type 0 where
    pub active : s.logger_instance ≡ some w
    pub no_hook : s.hook ≡ Hook.does_nothing
    pub no_handler : s.fatal_handler ≡ none
    pub handled : (sig : ℤ) → listed sig k_signals ≡ true → s.signals.system sig ≡ Action.ours

  -- What a step leaves: the worker was asked for one fatal message, if the step was the first with a
  -- signal, and for none otherwise.
  pub record Went (s s' : Logger R) : Type 0 where
    pub steady : Steady s'
    pub asked : List (Request R)
    pub queue : s'.workers w ≡ issue_all asked (s.workers w)
    pub counted : s'.signals.first_exit ≤ s.signals.first_exit + 1
    pub not_lost : s.signals.first_exit ≤ s'.signals.first_exit
    pub one : fatals asked ≡ first_of s.signals.first_exit s'.signals.first_exit

  pub plain_log :
      (at : ℕ × ℕ) (c : LogCapture) (on : Bool) (levels' : LogLevels) (s : Logger R)
      → was_fatal c.level ≡ false
      → Steady s
      → Went s (log_if_on build run_hook run_handler at c (on, levels') s)
  unfolding log_if_on destroy save_message push_message_to_logger save_to to_capture issue
  plain_log at c false levels' s n h = record {
    steady = record {
      active = h.active;
      no_hook = h.no_hook;
      no_handler = h.no_handler;
      handled = h.handled;
    };
    asked = [];
    queue = refl;
    counted = omega arith;
    not_lost = omega arith;
    one = ground arith;
  }
  plain_log (now, thread) c true levels' s n h =
      let m = captured build (to_capture now thread c) in
      let s1 : Logger R = save_to w m (record s { levels = levels' }) in
      let e : log_if_on build run_hook run_handler (now, thread) c (true, levels') s ≡ s1 =
        ground (arith, n, h.active) in
      rw e (record {
        steady = record {
          active = h.active;
          no_hook = h.no_hook;
          no_handler = h.no_handler;
          handled = h.handled;
        };
        asked = save_request m ∷ [];
        queue = put_same s.workers w (LogWorker.save m (s.workers w));
        counted = omega arith;
        not_lost = omega arith;
        one = ground arith;
      })

  -- What a fatal message leaves.
  record AsksFatal (s s' : Logger R) : Type 0 where
    steady : Steady s'
    asked : List (Request R)
    queue : s'.workers w ≡ issue_all asked (s.workers w)
    signals : s'.signals ≡ s.signals
    one : fatals asked ≡ 1

  save_message-AsksFatal :
      (c : Capture) (s : Logger R)
      → was_fatal c.level ≡ true
      → s.control ≡ Control.running
      → Steady s
      → AsksFatal s (save_message build run_hook run_handler c s)
  unfolding save_message call_hook then_do enter_fatal leave_fatal fatal_call
      push_fatal_message_to_logger fatal_to issue
  save_message-AsksFatal c s n r h =
      let s1 = enter_fatal c s in
      let f =
        fatal_message
          (append_message (fatal_text c s1.recursive_counter s1.first_stack_trace)
            (captured build c))
          c.fatal_signal in
      let s2 : Logger R = record (fatal_to w f s1) { control = Control.blocked } in
      let e : save_message build run_hook run_handler c s ≡ s2 =
        ground (arith, n, r, h.active, h.no_hook, h.no_handler) in
      rw e (record {
        steady = record {
          active = h.active;
          no_hook = refl;
          no_handler = h.no_handler;
          handled = h.handled;
        };
        asked = fatal_request f ∷ [];
        queue = put_same s.workers w (LogWorker.fatal f (s.workers w));
        signals = refl;
        one = refl;
      })

  -- A signal that is raised, the first or a later one.
  pub raise-Went :
      (p : Place) (sig : ℤ) (pid : ℕ) (elsewhere : Action → ℤ → Logger R → Logger R)
      (undefined_behaviour : Logger R → Logger R) (s : Logger R)
      → listed sig k_signals ≡ true
      → s.control ≡ Control.running
      → s.signals.first_exit + 1 < 2 ^ 64
      → Steady s
      → Went s (raise build run_hook run_handler pid elsewhere undefined_behaviour p sig s)
  unfolding raise handle_signal signal_handler should_do_exit destroy to_capture crash_entry write
      crash_capture log_capture was_fatal
  raise-Went p sig pid elsewhere undefined_behaviour s l r b h =
      elim (Bool-cases (s.signals.first_exit == 0)) [
        | inl first ↦
            let z : s.signals.first_exit ≡ 0 = ground (arith, first) in
            let c = to_capture p.now p.thread (
              crash_entry build run_hook run_handler p.demangle p.backtrace sig
                (signal_text sig pid)) in
            let s0 : Logger R = record s { signals = (should_do_exit s.signals).1 } in
            let e0 : raise build run_hook run_handler pid elsewhere undefined_behaviour p sig s
                ≡ save_message build run_hook run_handler c s0 =
              ground (arith, z, h.handled sig l) in
            let one = save_message-AsksFatal c s0 refl r (record {
              active = h.active;
              no_hook = h.no_hook;
              no_handler = h.no_handler;
              handled = h.handled;
            }) in
            let t = save_message build run_hook run_handler c s0 in
            let exits : t.signals.first_exit ≡ 1 =
              ap (λ x. x.first_exit) one.signals ∙ ground (arith, z) in
            rw e0 (record {
              steady = one.steady;
              asked = one.asked;
              queue = one.queue;
              counted = subst (λ n. n ≤ s.signals.first_exit + 1) (sym exits) (omega arith);
              not_lost = subst (λ n. s.signals.first_exit ≤ n) (sym exits) (omega arith);
              one =
                  subst (λ n. fatals one.asked ≡ first_of s.signals.first_exit n) (sym exits)
                    (one.one ∙ ground (arith, z));
            })
        | inr later ↦
            let s1 : Logger R = record s {
              signals = record (s.signals) { first_exit = s.signals.first_exit + 1 };
              control = Control.blocked;
            } in
            let e : raise build run_hook run_handler pid elsewhere undefined_behaviour p sig s
                ≡ s1 =
              ground (arith, later, h.handled sig l) in
            rw e (record {
              steady = record {
                active = h.active;
                no_hook = h.no_hook;
                no_handler = h.no_handler;
                handled = h.handled;
              };
              asked = [];
              queue = refl;
              counted = omega arith;
              not_lost = omega arith;
              one = ground (arith, later);
            })
      ]
