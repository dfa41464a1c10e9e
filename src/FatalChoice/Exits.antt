-- ===== src/FatalChoice/Exits.antt =====
-- src/example/main_fatal_choice.cpp: the functions that raise one signal or break a contract, and
-- how a thread that executes them dies.
use myg3log.Base.{ℕ, ◌≡◌, refl, subst, true, false, List, [], ◌∷◌, ◌++◌, Option, none, some, All}
use myg3log.Base.Int.{ℤ}
use myg3log.Base.Text.{Text, codes}
use myg3log.Levels.{Level, debug, info, was_fatal}
use myg3log.Crash.Reason.{sigabrt, sigfpe, sigsegv, sigill, sigterm}
use myg3log.Crash.Signals.{Action, k_signals}
use myg3log.Crash.Signals.Handlers.{listed}
use myg3log.Message.{FatalMessage}
use myg3log.Logger.{Logger, Build, Capture}
use myg3log.Macros.Statements.{Place, log_statement}
use myg3log.Macros.Programs.{Statement}
use myg3log.FatalChoice.Deaths.{
  Say, Death, signal_capture, false_contract, IsReady, Dies, dies, raise-Sent, check-Sent,
  logs-says, exiting-says, format-says,
}
use myg3log.FatalChoice.{DeathFunction}
use myg3log.FatalChoice.Functions.{
  Step, take_step, take_steps, steps_of, trigger_exit, exiting_by_sigfpe, exit_by_sigill,
  raise_sigabrt_steps, raise_sigfpe_steps, raise_sigsegv_steps, raise_sigill_steps,
  raise_sigterm_steps, no_exit_function_steps, failed_check_steps,
}

module _ (at : ℕ → Text → Place) where
  abbrev statement : ℕ → Text → Level → Text → Statement
  statement line name level text = record { place = at line name; level = level; text = text }

  abbrev says_trigger : ℕ → Text → Statement
  says_trigger line name = statement line name debug (codes " trigger exit")

  -- What the functions that raise one signal or break a contract say, and how they die.
  abbrev pub death_of : (Place → ℤ → Capture) → DeathFunction → Option Death
  death_of signalled DeathFunction.raise_sigabrt =
      some (record { said = []; crash = signalled (at 43 (codes "RaiseSIGABRT")) sigabrt })
  death_of signalled DeathFunction.raise_sigfpe =
      let name = codes "RaiseSIGFPE" in
      some (record {
        said = says_trigger 49 name ∷ statement 50 name info (codes "Exiting by SIGFPE") ∷ [];
        crash = signalled (at 51 name) sigfpe;
      })
  death_of signalled DeathFunction.raise_sigsegv =
      let name = codes "RaiseSIGSEGV" in
      some (record {
        said = says_trigger 56 name ∷ statement 57 name debug (codes "Exit by SIGSEGV") ∷ [];
        crash = signalled (at 58 name) sigsegv;
      })
  death_of signalled DeathFunction.raise_sigill =
      let name = codes "RaiseSIGILL" in
      some (record {
        said = says_trigger 63 name ∷ statement 64 name debug (codes "Exit by SIGILL") ∷ [];
        crash = signalled (at 65 name) sigill;
      })
  death_of signalled DeathFunction.raise_sigterm =
      let name = codes "RAiseSIGTERM" in
      some (record {
        said = says_trigger 70 name ∷ statement 71 name info (codes "Exiting by SIGFPE") ∷ [];
        crash = signalled (at 72 name) sigterm;
      })
  death_of signalled DeathFunction.no_exit_function =
      let name = codes "NoExitFunction" in
      some (record {
        said = says_trigger 109 name ∷ [];
        crash = false_contract (at 110 name) (codes "This function should never be called");
      })
  death_of signalled DeathFunction.failed_check =
      let name = codes "FailedCHECK" in
      some (record {
        said = says_trigger 160 name ∷ [];
        crash = false_contract (at 161 name) (codes "This is fatal");
      })
  death_of signalled f = none

module _ (build : Build) {R : Type 0} (run_hook : ℕ → Logger R → Logger R)
    (run_handler : ℕ → FatalMessage → Logger R → Logger R) (pid : ℕ)
    (elsewhere : Action → ℤ → Logger R → Logger R) (undefined_behaviour : Logger R → Logger R)
    (at : ℕ → Text → Place) where
  abbrev signalled : Place → ℤ → Capture
  signalled p sig = signal_capture build run_hook run_handler pid p sig

  abbrev pub Ready : ℕ → Logger R → Type 0
  Ready w s = IsReady build run_hook run_handler pid elsewhere undefined_behaviour w s

  -- A function that has a death dies it.
  abbrev DiesAs : Option (List Step) → Option Death → ℕ → Logger R → Type 0
  DiesAs (some xs) (some d) w s =
      Dies build run_hook run_handler pid elsewhere undefined_behaviour d w s
        (take_steps build run_hook run_handler pid elsewhere undefined_behaviour xs s)
  DiesAs none (some d) w s = ⊥
  DiesAs xs none w s = Unit {0}

  abbrev Died : Death → ℕ → (s s' : Logger R) → Type 0
  Died d w s s' = Dies build run_hook run_handler pid elsewhere undefined_behaviour d w s s'

  abbrev steps : List Step → Logger R → Logger R
  steps xs s = take_steps build run_hook run_handler pid elsewhere undefined_behaviour xs s

  abbrev SayAs : List Step → List Statement → Type 0
  SayAs xs sts = Say build run_hook run_handler pid elsewhere undefined_behaviour xs sts

  by_signal :
      (xs : List Step) (sts : List Statement) (p : Place) (sig : ℤ) (rest : List Step) (w : ℕ)
      (s : Logger R)
      → listed sig k_signals ≡ true
      → SayAs xs sts
      → All (λ st. was_fatal st.level ≡ false) sts
      → Ready w s
      → Died
          (record { said = sts; crash = signalled p sig })
          w
          s
          (steps (xs ++ Step.raises p sig ∷ rest) s)
  by_signal xs sts p sig rest w s l h n r =
      dies build run_hook run_handler pid elsewhere undefined_behaviour xs
        (record { said = sts; crash = signalled p sig }) (Step.raises p sig) rest w s h n r
        (λ t q.
          raise-Sent build run_hook run_handler pid elsewhere undefined_behaviour p sig w t l q)

  by_contract :
      (xs : List Step) (sts : List Statement) (p : Place) (text : Text) (w : ℕ) (s : Logger R)
      → SayAs xs sts
      → All (λ st. was_fatal st.level ≡ false) sts
      → Ready w s
      → Died
          (record { said = sts; crash = false_contract p text })
          w
          s
          (steps (xs ++ Step.checks p (codes "false") false text ∷ []) s)
  by_contract xs sts p text w s h n r =
      dies build run_hook run_handler pid elsewhere undefined_behaviour xs
        (record { said = sts; crash = false_contract p text })
        (Step.checks p (codes "false") false text) [] w s h n r
        (λ t q.
          check-Sent build run_hook run_handler pid elsewhere undefined_behaviour p text w t q)

  abbrev logs_say :
      (p : Place) (text : Text) (s : Logger R)
      → take_step build run_hook run_handler pid elsewhere undefined_behaviour
          (Step.logs p debug text)
          s
        ≡ log_statement build run_hook run_handler p debug text s
  logs_say p text s =
      logs-says build run_hook run_handler pid elsewhere undefined_behaviour p text s

  abbrev exiting :
      (p : Place) (s : Logger R)
      → take_step build run_hook run_handler pid elsewhere undefined_behaviour
          (Step.logs_format_if p info true exiting_by_sigfpe)
          s
        ≡ log_statement build run_hook run_handler p info (codes "Exiting by SIGFPE") s
  exiting p s = exiting-says build run_hook run_handler pid elsewhere undefined_behaviour p s

  abbrev formats :
      (p : Place) (s : Logger R)
      → take_step build run_hook run_handler pid elsewhere undefined_behaviour
          (Step.logs_format p debug exit_by_sigill)
          s
        ≡ log_statement build run_hook run_handler p debug (codes "Exit by SIGILL") s
  formats p s = format-says build run_hook run_handler pid elsewhere undefined_behaviour p s

  all_die :
      (g : ℤ) (f : DeathFunction) (w : ℕ) (s : Logger R)
      → Ready w s
      → DiesAs (steps_of at g f) (death_of at signalled f) w s
  unfolding steps_of raise_sigabrt_steps raise_sigfpe_steps raise_sigsegv_steps raise_sigill_steps
      raise_sigterm_steps no_exit_function_steps failed_check_steps trigger_exit was_fatal k_signals
  all_die g DeathFunction.raise_sigabrt w s r = by_signal [] [] _ sigabrt _ w s refl tt tt r
  all_die g DeathFunction.raise_sigfpe w s r =
      by_signal (_ ∷ _ ∷ []) (_ ∷ _ ∷ []) _ sigfpe _ w s refl (logs_say _ _, (exiting _, tt))
        (refl, (refl, tt)) r
  all_die g DeathFunction.raise_sigsegv w s r =
      by_signal (_ ∷ _ ∷ []) (_ ∷ _ ∷ []) _ sigsegv _ w s refl (logs_say _ _, (logs_say _ _, tt))
        (refl, (refl, tt)) r
  all_die g DeathFunction.raise_sigill w s r =
      by_signal (_ ∷ _ ∷ []) (_ ∷ _ ∷ []) _ sigill _ w s refl (logs_say _ _, (formats _, tt))
        (refl, (refl, tt)) r
  all_die g DeathFunction.raise_sigterm w s r =
      by_signal (_ ∷ _ ∷ []) (_ ∷ _ ∷ []) _ sigterm _ w s refl (logs_say _ _, (exiting _, tt))
        (refl, (refl, tt)) r
  all_die g DeathFunction.no_exit_function w s r =
      by_contract (_ ∷ []) (_ ∷ []) _ _ w s (logs_say _ _, tt) (refl, tt) r
  all_die g DeathFunction.failed_check w s r =
      by_contract (_ ∷ []) (_ ∷ []) _ _ w s (logs_say _ _, tt) (refl, tt) r
  all_die g DeathFunction.division_by_zero w s r = tt
  all_die g DeathFunction.illegal_printf w s r = tt
  all_die g DeathFunction.out_of_bounds_array_indexing w s r = tt
  all_die g DeathFunction.access_violation w s r = tt
  all_die g DeathFunction.raise_sigabrt_and_access_violation w s r = tt
  all_die g DeathFunction.throw w s r = tt
  all_die g DeathFunction.access_violation_x10000 w s r = tt
  all_die g DeathFunction.seg_fault_attempt_x10000 w s r = tt

  -- While a worker is active, nothing fatal has happened and the signals are handled: a function
  -- that raises one signal or breaks a contract asks the worker to save what it says before, of
  -- those levels that are on, and then to log the signal or the contract. The thread sleeps, so that
  -- nothing that stands behind is said.
  pub death_lem :
      (g : ℤ) (f : DeathFunction) (xs : List Step) (d : Death) (w : ℕ) (s : Logger R)
      → steps_of at g f ≡ some xs
      → death_of at signalled f ≡ some d
      → Ready w s
      → Died d w s (steps xs s)
  death_lem g f xs d w s e h r =
      let one = subst (λ o. DiesAs o (death_of at signalled f) w s) e (all_die g f w s r) in
      subst (λ o. DiesAs (some xs) o w s) h one
