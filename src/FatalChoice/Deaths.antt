-- ===== src/FatalChoice/Deaths.antt =====
-- src/example/main_fatal_choice.cpp: what a thread asks of the worker before it dies in one of the
-- functions that raise a signal or break a contract.
use myg3log.Base.{
  ℕ, ◌≡◌, refl, ◌∙◌, ap, arith, true, false, List, [], ◌∷◌, ◌++◌, none, some, map, All,
}
use myg3log.Base.Int.{ℤ, pos}
use myg3log.Base.Text.{Text, codes, c_str}
use myg3log.Levels.{debug, info, contract, fatal_signal, was_fatal}
use myg3log.Crash.Reason.{sigabrt}
use myg3log.Crash.Signals.{Action, k_signals, signal_text}
use myg3log.Crash.Signals.Handlers.{listed}
use myg3log.Crash.Stack.{stackdump}
use myg3log.Message.{FatalMessage}
use myg3log.Logger.{Control, Hook, Logger, Build, Capture, then_do}
use myg3log.Logger.Recursion.{Sent, fatal-Sent}
use myg3log.Capture.{vsnprintf, capturef, log_capture, write, to_capture}
use myg3log.Capture.Crashes.{crash_dump, handle_signal, first_signal-Sent}
use myg3log.Macros.{glog_log, glog_log_if}
use myg3log.Macros.Statements.{
  Place, log_statement, logf_statement, logf_if_statement, check_statement,
}
use myg3log.Macros.Programs.{
  Statement, saves_of, issue_all, run_statements, run_statements-Executed, Executed,
}
use myg3log.Macros.ProgramLog.{contract_message}
use myg3log.Pipeline.{save_request, fatal_request, issue}
use myg3log.FatalChoice.Functions.{
  Step, raise, take_step, take_steps, exiting_by_sigfpe, exit_by_sigill,
}

-- What a function says before it dies, and the capture of its death.
pub record Death : Type 0 where
  pub said : List Statement
  pub crash : Capture

module _ (build : Build) {R : Type 0} (run_hook : ℕ → Logger R → Logger R)
    (run_handler : ℕ → FatalMessage → Logger R → Logger R) (pid : ℕ) where
  -- The capture of a signal that is raised at a place.
  abbrev pub signal_capture : Place → ℤ → Capture
  signal_capture p sig =
      let dump = crash_dump build run_hook run_handler p.demangle p.backtrace in
      record {
        entry = c_str (signal_text sig pid);
        file = [];
        line = pos 0;
        function = [];
        level = fatal_signal;
        expression = [];
        fatal_signal = sig;
        stack_trace = c_str (
            codes "\n*******\tSTACKDUMP *******\n"
            ++ stackdump p.demangle p.backtrace (some (c_str dump)));
        now = p.now;
        thread = p.thread;
      }

-- The capture of `CHECK(false) << text` at a place.
abbrev pub false_contract : Place → Text → Capture
false_contract p text = record {
  entry = c_str text;
  file = p.file;
  line = p.line;
  function = p.function;
  level = contract;
  expression = codes "false";
  fatal_signal = sigabrt;
  stack_trace =
      c_str (codes "\n*******\tSTACKDUMP *******\n" ++ stackdump p.demangle p.backtrace none);
  now = p.now;
  thread = p.thread;
}

module _ (build : Build) {R : Type 0} (run_hook : ℕ → Logger R → Logger R)
    (run_handler : ℕ → FatalMessage → Logger R → Logger R) (pid : ℕ)
    (elsewhere : Action → ℤ → Logger R → Logger R) (undefined_behaviour : Logger R → Logger R) where
  -- Worker `w` is active, nothing fatal has happened, and the signals of the library are handled.
  pub record IsReady (w : ℕ) (s : Logger R) : Type 0 where
    pub active : s.logger_instance ≡ some w
    pub no_hook : s.hook ≡ Hook.does_nothing
    pub no_handler : s.fatal_handler ≡ none
    pub no_crash : s.recursive_counter ≡ 0
    pub runs : s.control ≡ Control.running
    pub no_signal : s.signals.first_exit ≡ 0
    pub handled : (sig : ℤ) → listed sig k_signals ≡ true → s.signals.system sig ≡ Action.ours

  -- The thread sleeps, and the worker was asked to save what was said and to log the crash.
  pub record Dies (d : Death) (w : ℕ) (s s' : Logger R) : Type 0 where
    pub sleeps : s'.control ≡ Control.blocked
    pub asked :
        s'.workers w
        ≡ issue
            (fatal_request (contract_message build d.crash))
            (issue_all (map save_request (saves_of build d.said s.levels)) (s.workers w))

  abbrev step : Step → Logger R → Logger R
  step x s = take_step build run_hook run_handler pid elsewhere undefined_behaviour x s

  abbrev steps : List Step → Logger R → Logger R
  steps xs s = take_steps build run_hook run_handler pid elsewhere undefined_behaviour xs s

  abbrev run : List Statement → Logger R → Logger R
  run sts s = run_statements build run_hook run_handler sts s

  -- Steps that do what statements do.
  abbrev pub Say : List Step → List Statement → Type 0
  Say [] [] = Unit {0}
  Say (x ∷ xs) (st ∷ sts) =
      ((s : Logger R)
        → step x s ≡ log_statement build run_hook run_handler st.place st.level st.text s)
      × Say xs sts
  Say [] (st ∷ sts) = ⊥
  Say (x ∷ xs) [] = ⊥

  Executed-IsReady :
      (sts : List Statement) (w : ℕ) (s s' : Logger R)
      → Executed build run_hook run_handler sts w s s'
      → IsReady w s
      → IsReady w s'
  Executed-IsReady sts w s s' done r = record {
    active = ap (λ x. x.logger_instance) done.rest ∙ r.active;
    no_hook = ap (λ x. x.hook) done.rest ∙ r.no_hook;
    no_handler = ap (λ x. x.fatal_handler) done.rest ∙ r.no_handler;
    no_crash = ap (λ x. x.recursive_counter) done.rest ∙ r.no_crash;
    runs = ap (λ x. x.control) done.rest ∙ r.runs;
    no_signal = ap (λ x. x.signals.first_exit) done.rest ∙ r.no_signal;
    handled = λ sig l. ap (λ x. x.signals.system sig) done.rest ∙ r.handled sig l;
  }

  steps-run :
      (xs : List Step) (sts : List Statement) (rest : List Step) (w : ℕ) (s : Logger R)
      → Say xs sts
      → All (λ st. was_fatal st.level ≡ false) sts
      → IsReady w s
      → steps (xs ++ rest) s ≡ steps rest (run sts s)
  unfolding take_steps then_do
  steps-run [] [] rest w s h n r = refl
  steps-run [] (st ∷ sts) rest w s h n r = absurd h
  steps-run (x ∷ xs) [] rest w s h n r = absurd h
  steps-run (x ∷ xs) (st ∷ sts) rest w s h n r =
      let s1 = log_statement build run_hook run_handler st.place st.level st.text s in
      let done =
        run_statements-Executed build run_hook run_handler (st ∷ []) w s (n.0, tt) r.active in
      let ready = Executed-IsReady (st ∷ []) w s s1 done r in
      let e : step x s ≡ s1 = h.0 s in
      let more = steps-run xs sts rest w s1 h.1 n.1 ready in ground (arith, e, ready.runs, more)

  pub dies :
      (xs : List Step) (d : Death) (x : Step) (rest : List Step) (w : ℕ) (s : Logger R)
      → Say xs d.said
      → All (λ st. was_fatal st.level ≡ false) d.said
      → IsReady w s
      → ((s1 : Logger R)
          → IsReady w s1
          → Sent build run_hook run_handler w d.crash d.crash.stack_trace s1 (step x s1))
      → Dies d w s (steps (xs ++ x ∷ rest) s)
  unfolding take_steps then_do issue
  dies xs d x rest w s h n r crash =
      let s1 = run d.said s in
      let done = run_statements-Executed build run_hook run_handler d.said w s n r.active in
      let sent = crash s1 (Executed-IsReady d.said w s s1 done r) in
      let e : steps (x ∷ rest) s1 ≡ step x s1 = ground (arith, sent.sleeps) in
      rw (steps-run xs d.said (x ∷ rest) w s h n r, e)
        (record {
          sleeps = sent.sleeps;
          asked =
              sent.one_message
              ∙ ap (issue (fatal_request (contract_message build d.crash))) done.asked;
        })

  pub raise-Sent :
      (p : Place) (sig : ℤ) (w : ℕ) (s : Logger R)
      → listed sig k_signals ≡ true
      → IsReady w s
      → let c = signal_capture build run_hook run_handler pid p sig in
        Sent build run_hook run_handler w c c.stack_trace s (step (Step.raises p sig) s)
  unfolding take_step raise
  raise-Sent p sig w s l r =
      let sent =
        first_signal-Sent build run_hook run_handler p.demangle p.backtrace sig pid p.now p.thread w
          s r.no_signal r.active r.no_hook r.no_handler r.no_crash r.runs in
      let e : step (Step.raises p sig) s
          ≡ handle_signal build run_hook run_handler p.demangle p.backtrace sig pid p.now p.thread
              s =
        ground (arith, r.handled sig l) in
      rw e (record { sleeps = sent.sleeps; one_message = sent.one_message })

  pub check-Sent :
      (p : Place) (text : Text) (w : ℕ) (s : Logger R)
      → IsReady w s
      → let c = false_contract p text in
        Sent build run_hook run_handler w c c.stack_trace s
          (step (Step.checks p (codes "false") false text) s)
  unfolding take_step check_statement to_capture write log_capture was_fatal
  check-Sent p text w s r =
      fatal-Sent build run_hook run_handler w (false_contract p text) s refl r.active r.no_hook
        r.no_handler r.no_crash r.runs

  pub logs-says :
      (p : Place) (text : Text) (s : Logger R)
      → step (Step.logs p debug text) s ≡ log_statement build run_hook run_handler p debug text s
  unfolding take_step
  logs-says p text s = refl

  pub exiting-says :
      (p : Place) (s : Logger R)
      → step (Step.logs_format_if p info true exiting_by_sigfpe) s
        ≡ log_statement build run_hook run_handler p info (codes "Exiting by SIGFPE") s
  unfolding take_step logf_if_statement glog_log_if log_statement glog_log capturef vsnprintf
      exiting_by_sigfpe codes write c_str
  exiting-says p s = refl

  pub format-says :
      (p : Place) (s : Logger R)
      → step (Step.logs_format p debug exit_by_sigill) s
        ≡ log_statement build run_hook run_handler p debug (codes "Exit by SIGILL") s
  unfolding take_step logf_statement log_statement glog_log capturef vsnprintf exit_by_sigill codes
      write c_str
  format-says p s = refl
