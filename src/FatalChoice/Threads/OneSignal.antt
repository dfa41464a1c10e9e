-- ===== src/FatalChoice/Threads/OneSignal.antt =====
-- src/crashhandler_unix.cpp and src/g3log.cpp under threads that crash: one signal is logged.
pub mod Tests
use myg3log.Base.{
  ℕ, zero, suc, ◌+◌, ◌^◌, ◌<◌, ◌≤◌, ◌≡◌, refl, sym, subst, ◌∙◌, ap, arith, List, [], ◌∷◌, ◌++◌,
  some, All, if◌then◌else◌, ◌==◌, length,
}
use myg3log.Base.Int.{ℤ}
use myg3log.Active.{Active}
use myg3log.LogWorker.{Job}
use myg3log.Crash.Reason.{sigsegv}
use myg3log.Crash.Signals.{Action}
use myg3log.Message.{FatalMessage}
use myg3log.Logger.{Control, Logger, Build}
use myg3log.Macros.Statements.{Place}
use myg3log.Macros.Programs.{issue_all}
use myg3log.Macros.ProgramLog.{issue_all-append}
use myg3log.Pipeline.{
  Request, save_request, fatal_request, add_request, clear_request, done_request,
}
use myg3log.FatalChoice.Functions.{Step, raise}
use myg3log.FatalChoice.Threads.{take_turn, left, Turns, begins, turn}
use myg3log.FatalChoice.Threads.Asking.{fatals, first_of, Steady}
use myg3log.FatalChoice.Threads.Steps.{Plain, step-Went}

-- The steps that threads have left.
abbrev pub size : List (List Step) → ℕ
size [] = 0
size (xs ∷ rest) = length xs + size rest

size-left :
    (c : Control) (before : List (List Step)) (x : Step) (xs : List Step)
    (behind : List (List Step))
    → size (left c before xs behind) + 1 ≤ size (before ++ (x ∷ xs) ∷ behind)
unfolding left
size-left Control.running [] x xs behind = omega arith
size-left Control.blocked [] x xs behind = omega arith
size-left Control.failed [] x xs behind = omega arith
size-left Control.terminated [] x xs behind = omega arith
size-left (Control.exited level sig) [] x xs behind = omega arith
size-left Control.running (b ∷ before) x xs behind =
    omega (arith, size-left Control.running before x xs behind)
size-left Control.blocked (b ∷ before) x xs behind =
    omega (arith, size-left Control.blocked before x xs behind)
size-left Control.failed (b ∷ before) x xs behind =
    omega (arith, size-left Control.failed before x xs behind)
size-left Control.terminated (b ∷ before) x xs behind =
    omega (arith, size-left Control.terminated before x xs behind)
size-left (Control.exited level sig) (b ∷ before) x xs behind =
    omega (arith, size-left (Control.exited level sig) before x xs behind)

fatals-append : {R : Type 0} (xs ys : List (Request R)) → fatals (xs ++ ys) ≡ fatals xs + fatals ys
fatals-append [] ys = omega arith
fatals-append (save_request m ∷ xs) ys = fatals-append xs ys
fatals-append (fatal_request f ∷ xs) ys = omega (arith, fatals-append xs ys)
fatals-append (add_request real call destructor ∷ xs) ys = fatals-append xs ys
fatals-append (clear_request ∷ xs) ys = fatals-append xs ys
fatals-append (done_request ∷ xs) ys = fatals-append xs ys

both_counted :
    (before behind a b : ℕ)
    → a ≡ first_of 0 before
    → b ≡ first_of before behind
    → before ≤ behind
    → a + b ≡ first_of 0 behind
both_counted before behind a b e f l = grind (arith, e, f, l)

module _ (build : Build) {R : Type 0} (run_hook : ℕ → Logger R → Logger R)
    (run_handler : ℕ → FatalMessage → Logger R → Logger R) (w : ℕ) (pid : ℕ)
    (elsewhere : Action → ℤ → Logger R → Logger R) (undefined_behaviour : Logger R → Logger R) where
  abbrev pub AllPlain : List (List Step) → Type 0
  AllPlain ts = All (λ xs. All (Plain build run_hook run_handler w) xs) ts

  split_turn :
      (before : List (List Step)) (x : Step) (xs : List Step) (behind : List (List Step))
      → AllPlain (before ++ (x ∷ xs) ∷ behind)
      → Plain build run_hook run_handler w x
        × AllPlain (before ++ xs ∷ behind)
        × AllPlain (before ++ [] ∷ behind)
  split_turn [] x xs behind (h, hs) = (h.0, (h.1, hs), (tt, hs))
  split_turn (b ∷ before) x xs behind (h, hs) =
      let (one, run, stop) = split_turn before x xs behind hs in (one, (h, run), (h, stop))

  left_all :
      (c : Control) (before : List (List Step)) (xs : List Step) (behind : List (List Step))
      → AllPlain (before ++ xs ∷ behind)
      → AllPlain (before ++ [] ∷ behind)
      → AllPlain (left c before xs behind)
  unfolding left
  left_all Control.running before xs behind r b = r
  left_all Control.blocked before xs behind r b = b
  left_all Control.failed before xs behind r b = tt
  left_all Control.terminated before xs behind r b = tt
  left_all (Control.exited level sig) before xs behind r b = tt

  -- What holds after any turns.
  record Held (threads : List (List Step)) (start : Logger R) (now : List (List Step))
      (s : Logger R) : Type 0 where
    all_plain : AllPlain now
    steady : Steady build run_hook run_handler w s
    bounded : s.signals.first_exit + size now ≤ size threads
    asked : List (Request R)
    queue : s.workers w ≡ issue_all asked (start.workers w)
    one : fatals asked ≡ first_of 0 s.signals.first_exit

  -- One more turn.
  one_turn :
      (threads : List (List Step)) (start : Logger R) (faulty : Place) (before : List (List Step))
      (x : Step) (xs : List Step) (behind : List (List Step)) (s : Logger R)
      → ((t : Logger R)
          → undefined_behaviour t
            ≡ raise build run_hook run_handler pid elsewhere undefined_behaviour faulty sigsegv t)
      → size threads + 1 < 2 ^ 64
      → Held threads start (before ++ (x ∷ xs) ∷ behind) s
      → let s' = take_turn build run_hook run_handler pid elsewhere undefined_behaviour x s in
        Held threads start (left s'.control before xs behind) s'
  unfolding take_turn
  one_turn threads start faulty before x xs behind s faults few h =
      let (plain_x, runs, stops) = split_turn before x xs behind h.all_plain in
      let s1 : Logger R = record s { control = Control.running } in
      let s' = take_turn build run_hook run_handler pid elsewhere undefined_behaviour x s in
      let less = size-left s'.control before x xs behind in
      let went =
        step-Went build run_hook run_handler w pid elsewhere undefined_behaviour x s1 faulty faults
          plain_x refl (omega (arith, h.bounded, less, few))
          (record {
            active = h.steady.active;
            no_hook = h.steady.no_hook;
            no_handler = h.steady.no_handler;
            handled = h.steady.handled;
          }) in
      record {
        all_plain = left_all s'.control before xs behind runs stops;
        steady = went.steady;
        bounded = omega (arith, went.counted, less, h.bounded);
        asked = h.asked ++ went.asked;
        queue =
            went.queue
            ∙ ap (issue_all went.asked) h.queue
            ∙ sym (issue_all-append h.asked went.asked (start.workers w));
        one =
            fatals-append h.asked went.asked
            ∙ both_counted s.signals.first_exit s'.signals.first_exit (fatals h.asked)
                (fatals went.asked) h.one went.one went.not_lost;
      }

  after_all :
      (threads : List (List Step)) (start : Logger R) (faulty : Place) {now : List (List Step)}
      {s : Logger R}
      → ((t : Logger R)
          → undefined_behaviour t
            ≡ raise build run_hook run_handler pid elsewhere undefined_behaviour faulty sigsegv t)
      → AllPlain threads
      → Steady build run_hook run_handler w start
      → start.signals.first_exit ≡ 0
      → size threads + 1 < 2 ^ 64
      → Turns build run_hook run_handler pid elsewhere undefined_behaviour threads start now s
      → Held threads start now s
  after_all threads start faulty faults p h z few begins = record {
    all_plain = p;
    steady = h;
    bounded = omega (arith, z);
    asked = [];
    queue = refl;
    one = ground (arith, z);
  }
  after_all threads start faulty faults p h z few (turn {now} {s} t before x xs behind e) =
      one_turn threads start faulty before x xs behind s faults few (
        subst (λ ts. Held threads start ts s) e (after_all threads start faulty faults p h z few t))

  -- Threads of statements that are not fatal, of contracts that hold and of signals of the library
  -- are started, with fewer than 2 ^ 64 steps, while a worker is active, the hook does nothing, no
  -- handler is set, the signals are handled and there was none before; what has no defined behaviour
  -- is a segmentation fault, as the hardware has it. In whatever turns the threads take their
  -- steps, the worker is asked for exactly one fatal message if there was a signal, and for none if
  -- there was none.
  pub one_signal :
      (threads : List (List Step)) (start : Logger R) (faulty : Place) {now : List (List Step)}
      {s : Logger R}
      → ((t : Logger R)
          → undefined_behaviour t
            ≡ raise build run_hook run_handler pid elsewhere undefined_behaviour faulty sigsegv t)
      → AllPlain threads
      → Steady build run_hook run_handler w start
      → start.signals.first_exit ≡ 0
      → size threads + 1 < 2 ^ 64
      → Turns build run_hook run_handler pid elsewhere undefined_behaviour threads start now s
      → (asked : List (Request R)) × (s.workers w ≡ issue_all asked (start.workers w))
        × (fatals asked ≡ (if s.signals.first_exit == 0 then 0 else 1))
  one_signal threads start faulty faults p h z few t =
      let d = after_all threads start faulty faults p h z few t in (d.asked, d.queue, d.one)
