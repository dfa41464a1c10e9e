-- ===== src/FatalChoice/Functions.antt =====
-- src/example/main_fatal_choice.cpp: the functions that the user chooses from, as the steps of the
-- thread that executes them. `LOG`, `LOGF` and `LOGF_IF`, which no header of the repository
-- defines, stand for `GLOG_LOG`, `GLOG_LOGF` and `GLOG_LOGF_IF`. Threads has the
-- functions that start threads; the one that throws an exception is not among them.
use myg3log.Base.{
  ℕ, zero, suc, ◌/◌, Bool, true, false, List, [], ◌∷◌, ◌++◌, Option, none, some, if◌then◌else◌,
  ◌==◌,
}
use myg3log.Base.Int.{ℤ, pos, negsuc}
use myg3log.Base.Text.{Text, codes}
use myg3log.Base.Decimal.{int_to_string}
use myg3log.Levels.{Level, debug, info, warning, log_level}
use myg3log.Crash.Reason.{sigabrt, sigfpe, sigsegv, sigill, sigterm}
use myg3log.Crash.Signals.{Action}
use myg3log.Message.{FatalMessage}
use myg3log.Logger.{Logger, Build, then_do}
use myg3log.Capture.Crashes.{handle_signal}
use myg3log.Macros.Statements.{
  Place, PrintfCall, log_statement, logf_statement, logf_if_statement, check_statement,
}
use myg3log.FatalChoice.{DeathFunction}

-- A step of a thread: a statement, a contract, `raise(signal)`, or what has no defined behaviour,
-- at once or in a statement when its level is on.
pub data Step : Type 0 where
  logs : Place → Level → Text → Step
  logs_format : Place → Level → PrintfCall → Step
  logs_format_if : Place → Level → Bool → PrintfCall → Step
  checks : Place → (expression : Text) → Bool → Text → Step
  raises : Place → ℤ → Step
  undefined : Step
  undefined_format : Level → Step

unfoldable pub exiting_by_sigfpe : PrintfCall
exiting_by_sigfpe = record {
  printf_like_message = codes "Exiting %s SIGFPE";
  formatted = some (codes "Exiting by SIGFPE");
}

unfoldable pub exit_by_sigill : PrintfCall
exit_by_sigill = record {
  printf_like_message = codes "Exit by %s";
  formatted = some (codes "Exit by SIGILL");
}

-- `at line function` is the place of a line of the file.
module _ (at : ℕ → Text → Place) where
  unfoldable pub expected_to_have_died : ℕ → Text → Step
  expected_to_have_died line name =
      Step.logs (at line name) warning (codes "Expected to have died by now...")

  unfoldable pub trigger_exit : ℕ → Text → Step
  trigger_exit line name = Step.logs (at line name) debug (codes " trigger exit")

  -- `RaiseSIGABRT()`.
  unfoldable pub raise_sigabrt_steps : List Step
  unfolding expected_to_have_died trigger_exit
  raise_sigabrt_steps =
      let name = codes "RaiseSIGABRT" in
      Step.raises (at 43 name) sigabrt ∷ trigger_exit 44 name ∷ expected_to_have_died 45 name ∷ []

  -- `RaiseSIGFPE()`.
  unfoldable pub raise_sigfpe_steps : List Step
  unfolding expected_to_have_died trigger_exit exiting_by_sigfpe
  raise_sigfpe_steps =
      let name = codes "RaiseSIGFPE" in
      trigger_exit 49 name
      ∷ Step.logs_format_if (at 50 name) info true exiting_by_sigfpe
      ∷ Step.raises (at 51 name) sigfpe
      ∷ expected_to_have_died 52 name
      ∷ []

  -- `RaiseSIGSEGV()`.
  unfoldable pub raise_sigsegv_steps : List Step
  unfolding expected_to_have_died trigger_exit
  raise_sigsegv_steps =
      let name = codes "RaiseSIGSEGV" in
      trigger_exit 56 name
      ∷ Step.logs (at 57 name) debug (codes "Exit by SIGSEGV")
      ∷ Step.raises (at 58 name) sigsegv
      ∷ expected_to_have_died 59 name
      ∷ []

  -- `RaiseSIGILL()`.
  unfoldable pub raise_sigill_steps : List Step
  unfolding expected_to_have_died trigger_exit exit_by_sigill
  raise_sigill_steps =
      let name = codes "RaiseSIGILL" in
      trigger_exit 63 name
      ∷ Step.logs_format (at 64 name) debug exit_by_sigill
      ∷ Step.raises (at 65 name) sigill
      ∷ expected_to_have_died 66 name
      ∷ []

  -- `RAiseSIGTERM()`.
  unfoldable pub raise_sigterm_steps : List Step
  unfolding expected_to_have_died trigger_exit exiting_by_sigfpe
  raise_sigterm_steps =
      let name = codes "RAiseSIGTERM" in
      trigger_exit 70 name
      ∷ Step.logs_format_if (at 71 name) info true exiting_by_sigfpe
      ∷ Step.raises (at 72 name) sigterm
      ∷ expected_to_have_died 73 name
      ∷ []

  -- 3 divided by a number, as C++ rounds; `none` if the number is 0.
  unfoldable pub divide_3 : ℤ → Option ℤ
  divide_3 (pos n) = if n == 0 then none else some (pos (3 / n))
  divide_3 (negsuc n) = elim (3 / suc n) [ zero ↦ some (pos 0) | suc k ↦ some (negsuc k) ]

  -- `DivisionByZero()`. Nothing is known of what comes behind a division by 0.
  unfoldable pub division_by_zero_steps : ℤ → List Step
  unfolding divide_3
  division_by_zero_steps g_should_be_zero =
      let name = codes "DivisionByZero" in
      let divided : List Step = elim (divide_3 g_should_be_zero) [
        | none ↦ Step.undefined ∷ []
        | some test ↦
            Step.logs (at 82 name) warning
              (codes "Expected to have died by now..., test value: " ++ int_to_string test)
            ∷ []
      ] in
      Step.logs (at 78 name) debug (
        codes " trigger exit   Executing DivisionByZero: gShouldBeZero: "
        ++ int_to_string g_should_be_zero)
      ∷ Step.logs (at 79 name) info (codes "Division by zero is a big no-no")
      ∷ divided

  -- `IllegalPrintf()`.
  unfoldable pub illegal_printf_steps : List Step
  unfolding expected_to_have_died trigger_exit
  illegal_printf_steps =
      let name = codes "IllegalPrintf" in
      trigger_exit 86 name
      ∷ Step.logs (at 87 name) debug (codes "Impending doom due to illeteracy")
      ∷ Step.undefined_format info
      ∷ expected_to_have_died 89 name
      ∷ []

  -- `OutOfBoundsArrayIndexing()`.
  unfoldable pub out_of_bounds_array_indexing_steps : List Step
  unfolding expected_to_have_died trigger_exit
  out_of_bounds_array_indexing_steps =
      let name = codes "OutOfBoundsArrayIndexing" in
      trigger_exit 93 name ∷ Step.undefined ∷ expected_to_have_died 96 name ∷ []

  -- `AccessViolation()`.
  unfoldable pub access_violation_steps : List Step
  unfolding expected_to_have_died trigger_exit
  access_violation_steps =
      let name = codes "AccessViolation" in
      trigger_exit 101 name
      ∷ Step.logs (at 103 name) info (codes "Death by access violation is imminent")
      ∷ Step.undefined
      ∷ expected_to_have_died 105 name
      ∷ []

  -- `NoExitFunction()`.
  unfoldable pub no_exit_function_steps : List Step
  unfolding trigger_exit
  no_exit_function_steps =
      let name = codes "NoExitFunction" in
      trigger_exit 109 name
      ∷ Step.checks (at 110 name) (codes "false") false
          (codes "This function should never be called")
      ∷ []

  -- `FailedCHECK()`.
  unfoldable pub failed_check_steps : List Step
  unfolding trigger_exit
  failed_check_steps =
      let name = codes "FailedCHECK" in
      trigger_exit 160 name
      ∷ Step.checks (at 161 name) (codes "false") false (codes "This is fatal")
      ∷ []

  -- `fatal_function()`, as `CallActualExitFunction` calls it; `none` stands for the functions that
  -- start threads or throw an exception.
  unfoldable pub steps_of : ℤ → DeathFunction → Option (List Step)
  steps_of g DeathFunction.no_exit_function = some no_exit_function_steps
  steps_of g DeathFunction.raise_sigabrt = some raise_sigabrt_steps
  steps_of g DeathFunction.raise_sigfpe = some raise_sigfpe_steps
  steps_of g DeathFunction.raise_sigsegv = some raise_sigsegv_steps
  steps_of g DeathFunction.raise_sigill = some raise_sigill_steps
  steps_of g DeathFunction.raise_sigterm = some raise_sigterm_steps
  steps_of g DeathFunction.division_by_zero = some (division_by_zero_steps g)
  steps_of g DeathFunction.illegal_printf = some illegal_printf_steps
  steps_of g DeathFunction.out_of_bounds_array_indexing = some out_of_bounds_array_indexing_steps
  steps_of g DeathFunction.access_violation = some access_violation_steps
  steps_of g DeathFunction.raise_sigabrt_and_access_violation = none
  steps_of g DeathFunction.throw = none
  steps_of g DeathFunction.failed_check = some failed_check_steps
  steps_of g DeathFunction.access_violation_x10000 = none
  steps_of g DeathFunction.seg_fault_attempt_x10000 = none

-- What the system does at a signal for which there is another handler or none, and where the
-- behaviour is not defined, are parameters.
module _ (build : Build) {R : Type 0} (run_hook : ℕ → Logger R → Logger R)
    (run_handler : ℕ → FatalMessage → Logger R → Logger R) (pid : ℕ)
    (elsewhere : Action → ℤ → Logger R → Logger R) (undefined_behaviour : Logger R → Logger R) where
  unfoldable pub raise : Place → ℤ → Logger R → Logger R
  unfolding handle_signal
  raise p sig s = elim (s.signals.system sig) [
    | Action.ours ↦
        handle_signal build run_hook run_handler p.demangle p.backtrace sig pid p.now p.thread s
    | Action.default ↦ elsewhere Action.default sig s
    | Action.other n ↦ elsewhere (Action.other n) sig s
  ]

  unfoldable pub take_step : Step → Logger R → Logger R
  unfolding raise
  take_step (Step.logs p level text) s = log_statement build run_hook run_handler p level text s
  take_step (Step.logs_format p level call) s =
      logf_statement build run_hook run_handler p level 2048 call s
  take_step (Step.logs_format_if p level on call) s =
      logf_if_statement build run_hook run_handler p level on 2048 call s
  take_step (Step.checks p expression holds text) s =
      check_statement build run_hook run_handler p expression holds text s
  take_step (Step.raises p sig) s = raise p sig s
  take_step Step.undefined s = undefined_behaviour s
  take_step (Step.undefined_format level) s =
      let (on, levels') = log_level build.dynamic_levels level s.levels in
      let s' : Logger R = record s { levels = levels' } in if on then undefined_behaviour s' else s'

  -- A thread takes its steps as long as it runs.
  unfoldable pub take_steps : List Step → Logger R → Logger R
  unfolding take_step then_do
  take_steps [] s = s
  take_steps (x ∷ xs) s = then_do (take_steps xs) (take_step x s)
