-- ===== src/FatalChoice/Threads.antt =====
-- src/example/main_fatal_choice.cpp: the functions that start threads, up to their wait, and the
-- turns that threads take. A step is taken at once; the state of the logging system is shared, while each thread runs,
-- sleeps or has ended for itself.
pub mod Asking
pub mod Steps
pub mod OneSignal
use myg3log.Base.{ℕ, List, [], ◌∷◌, ◌++◌, Option, none, some, ◌≡◌, replicate}
use myg3log.Base.Int.{ℤ}
use myg3log.Base.Text.{Text, codes}
use myg3log.Crash.Signals.{Action}
use myg3log.Message.{FatalMessage}
use myg3log.Logger.{Control, Logger, Build}
use myg3log.Macros.Statements.{Place}
use myg3log.FatalChoice.Functions.{
  Step, take_step, trigger_exit, raise_sigabrt_steps, access_violation_steps,
}

module _ (at : ℕ → Text → Place) where
  -- `RaiseSIGABRTAndAccessViolation()`: what it says, and the threads that it starts.
  unfoldable pub raise_sigabrt_and_access_violation_threads : List Step × List (List Step)
  unfolding trigger_exit
  raise_sigabrt_and_access_violation_threads = (
    trigger_exit at 114 (codes "RaiseSIGABRTAndAccessViolation") ∷ [],
    raise_sigabrt_steps at ∷ access_violation_steps at ∷ [],
  )

  -- `Death_x10000(func, funcname)`, for the number of threads.
  unfoldable pub death_threads : ℕ → List Step → List Step × List (List Step)
  unfolding trigger_exit
  death_threads count func = (trigger_exit at 125 (codes "Death_x10000") ∷ [], replicate count func)

  -- `SegFaultAttempt_x10000()`.
  unfoldable pub seg_fault_attempt_threads : ℕ → List Step × List (List Step)
  unfolding death_threads
  seg_fault_attempt_threads count = death_threads count (Step.undefined ∷ [])

  -- `AccessViolation_x10000()`.
  unfoldable pub access_violation_threads : ℕ → List Step × List (List Step)
  unfolding death_threads
  access_violation_threads count = death_threads count (access_violation_steps at)

-- What threads have left when the one between the others has taken a step: nothing, if the process
-- has ended with it.
unfoldable pub left : Control → List (List Step) → List Step → List (List Step) → List (List Step)
left Control.running before xs behind = before ++ xs ∷ behind
left Control.blocked before xs behind = before ++ [] ∷ behind
left Control.failed before xs behind = []
left Control.terminated before xs behind = []
left (Control.exited level sig) before xs behind = []

module _ (build : Build) {R : Type 0} (run_hook : ℕ → Logger R → Logger R)
    (run_handler : ℕ → FatalMessage → Logger R → Logger R) (pid : ℕ)
    (elsewhere : Action → ℤ → Logger R → Logger R) (undefined_behaviour : Logger R → Logger R) where
  -- A step of a thread that has its turn.
  unfoldable pub take_turn : Step → Logger R → Logger R
  unfolding take_step
  take_turn x s =
      take_step build run_hook run_handler pid elsewhere undefined_behaviour x
        (record s { control = Control.running })

  -- What the threads have left, and the logging system, after any turns.
  pub data Turns (threads : List (List Step)) (start : Logger R)
      : List (List Step) → Logger R → Type 0 where
    begins : Turns threads start threads start
    turn :
        {now : List (List Step)} {s : Logger R}
        → Turns threads start now s
        → (before : List (List Step)) (x : Step) (xs : List Step) (behind : List (List Step))
        → now ≡ before ++ (x ∷ xs) ∷ behind
        → Turns threads start (left (take_turn x s).control before xs behind) (take_turn x s)
