-- ===== src/FatalChoice/Threads/Steps.antt =====
-- src/g3log.cpp and src/crashhandler_unix.cpp: what one step of a thread leaves.
use myg3log.Base.{
  ℕ, ◌+◌, ◌^◌, ◌<◌, ◌≡◌, refl, ◌∙◌, ap, arith, true, false, [], inl, inr, Bool-cases,
}
use myg3log.Base.Int.{ℤ}
use myg3log.Levels.{was_fatal, log_level}
use myg3log.Crash.Signals.{Action, k_signals}
use myg3log.Crash.Signals.Handlers.{listed}
use myg3log.Message.{FatalMessage}
use myg3log.Logger.{Control, Logger, Build}
use myg3log.Capture.{capturef, write, log_capture}
use myg3log.Macros.Statements.{
  Place, internal_log_message, log_statement, logf_statement, logf_if_statement, check_statement,
  end_contract,
}
use myg3log.Macros.{check, glog_log, glog_log_if}
use myg3log.Crash.Reason.{sigsegv}
use myg3log.FatalChoice.Threads.Asking.{Steady, Went, capturef-level, plain_log, raise-Went}
use myg3log.FatalChoice.Functions.{Step, raise, take_step}

module _ (build : Build) {R : Type 0} (run_hook : ℕ → Logger R → Logger R)
    (run_handler : ℕ → FatalMessage → Logger R → Logger R) (w : ℕ) where
  -- The steps of a thread that says what is not fatal, keeps its contracts, and raises the signals of
  -- the library.
  abbrev pub Plain : Step → Type 0
  Plain (Step.logs p level text) = was_fatal level ≡ false
  Plain (Step.logs_format p level call) = was_fatal level ≡ false
  Plain (Step.logs_format_if p level on call) = was_fatal level ≡ false
  Plain (Step.checks p expression holds text) = holds ≡ true
  Plain (Step.raises p sig) = listed sig k_signals ≡ true
  Plain Step.undefined = Unit {0}
  Plain (Step.undefined_format level) = Unit {0}

  module _ (pid : ℕ) (elsewhere : Action → ℤ → Logger R → Logger R)
      (undefined_behaviour : Logger R → Logger R) where
    abbrev step : Step → Logger R → Logger R
    step x s = take_step build run_hook run_handler pid elsewhere undefined_behaviour x s

    abbrev raised : Place → ℤ → Logger R → Logger R
    raised p sig s = raise build run_hook run_handler pid elsewhere undefined_behaviour p sig s

    pub step-Went :
        (x : Step) (s : Logger R) (faulty : Place)
        → ((t : Logger R) → undefined_behaviour t ≡ raised faulty sigsegv t)
        → Plain x
        → s.control ≡ Control.running
        → s.signals.first_exit + 1 < 2 ^ 64
        → Steady build run_hook run_handler w s
        → Went build run_hook run_handler w s (step x s)
    unfolding take_step log_statement logf_statement logf_if_statement check_statement
        internal_log_message log_capture write k_signals check end_contract
    step-Went (Step.logs p level text) s faulty faults n r b h =
        plain_log build run_hook run_handler w (p.now, p.thread) _ _ _ s n h
    step-Went (Step.logs_format p level call) s faulty faults n r b h =
        plain_log build run_hook run_handler w (p.now, p.thread)
          (capturef 2048 call.printf_like_message call.formatted (internal_log_message p level))
          (glog_log build.dynamic_levels level s.levels).0
          (glog_log build.dynamic_levels level s.levels).1 s
          (ap was_fatal (capturef-level 2048 call (internal_log_message p level)) ∙ n) h
    step-Went (Step.logs_format_if p level on call) s faulty faults n r b h =
        plain_log build run_hook run_handler w (p.now, p.thread)
          (capturef 2048 call.printf_like_message call.formatted (internal_log_message p level))
          (glog_log_if build.dynamic_levels level on s.levels).0
          (glog_log_if build.dynamic_levels level on s.levels).1 s
          (ap was_fatal (capturef-level 2048 call (internal_log_message p level)) ∙ n) h
    step-Went (Step.checks p expression holds text) s faulty faults n r b h =
        let e : step (Step.checks p expression holds text) s ≡ s = ground (arith, n) in
        rw e (record {
          steady = h;
          asked = [];
          queue = refl;
          counted = omega arith;
          not_lost = omega arith;
          one = ground arith;
        })
    step-Went (Step.raises p sig) s faulty faults n r b h =
        raise-Went build run_hook run_handler w p sig pid elsewhere undefined_behaviour s n r b h
    step-Went Step.undefined s faulty faults n r b h = rw (faults s) (
        raise-Went build run_hook run_handler w faulty sigsegv pid elsewhere undefined_behaviour s
          refl r b h)
    step-Went (Step.undefined_format level) s faulty faults n r b h =
        let found = log_level build.dynamic_levels level s.levels in
        elim (Bool-cases found.0) [
          | inl on ↦
              let s1 : Logger R = record s { levels = found.1 } in
              let e : step (Step.undefined_format level) s ≡ raised faulty sigsegv s1 =
                ground (arith, on, faults s1) in
              let went =
                raise-Went build run_hook run_handler w faulty sigsegv pid elsewhere
                  undefined_behaviour s1 refl r b
                  (record {
                    active = h.active;
                    no_hook = h.no_hook;
                    no_handler = h.no_handler;
                    handled = h.handled;
                  }) in
              rw e (record {
                steady = went.steady;
                asked = went.asked;
                queue = went.queue;
                counted = went.counted;
                not_lost = went.not_lost;
                one = went.one;
              })
          | inr off ↦
              let s1 : Logger R = record s { levels = found.1 } in
              let e : step (Step.undefined_format level) s ≡ s1 = ground (arith, off) in
              rw e (record {
                steady = record {
                  active = h.active;
                  no_hook = h.no_hook;
                  no_handler = h.no_handler;
                  handled = h.handled;
                };
                asked = [];
                queue = refl;
                counted = omega arith;
                not_lost = omega arith;
                one = ground arith;
              })
        ]
