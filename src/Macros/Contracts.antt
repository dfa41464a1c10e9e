-- ===== src/Macros/Contracts.antt =====
-- src/g3log/g3log.hpp: statements with contracts on two values, kept or broken.
use myg3log.Base.{ℕ, ◌≡◌, refl, sym, subst, arith, Bool, true, false, ◌++◌, none, some}
use myg3log.Base.Text.{Text, codes, c_str}
use myg3log.Levels.{was_fatal, contract}
use myg3log.Crash.Reason.{sigabrt}
use myg3log.Crash.Stack.{stackdump}
use myg3log.Message.{FatalMessage}
use myg3log.Logger.{Control, Hook, Logger, Build, Capture}
use myg3log.Logger.Save.{save_message}
use myg3log.Logger.Recursion.{Sent, fatal-Sent}
use myg3log.Capture.{log_capture, write, to_capture}
use myg3log.Macros.Statements.{
  Place, Comparisons, CheckOp, compare_values, operator_text, check_op_statement,
}

-- The capture of a contract at a place that compares two values.
abbrev pub broken : Place → CheckOp → (text1 text2 text : Text) → Capture
broken p op text1 text2 text = record {
  entry = c_str text;
  file = p.file;
  line = p.line;
  function = p.function;
  level = contract;
  expression =
      codes "(" ++ text1 ++ codes ") " ++ operator_text op ++ codes " (" ++ text2 ++ codes ")";
  fatal_signal = sigabrt;
  stack_trace =
      c_str (codes "\n*******\tSTACKDUMP *******\n" ++ stackdump p.demangle p.backtrace none);
  now = p.now;
  thread = p.thread;
}

module _ (build : Build) {R : Type 0} (run_hook : ℕ → Logger R → Logger R)
    (run_handler : ℕ → FatalMessage → Logger R → Logger R) where
  broken_statement :
      {A : Type 0} (p : Place) (c : Comparisons A) (op : CheckOp) (text1 text2 : Text) (a b : A)
      (text : Text) (s : Logger R)
      → compare_values c op a b ≡ false
      → check_op_statement build run_hook run_handler p c op text1 text2 a b text s
        ≡ save_message build run_hook run_handler (broken p op text1 text2 text) s
  unfolding check_op_statement to_capture write log_capture was_fatal
  broken_statement p c op text1 text2 a b text s e = ground (arith, e)

  -- What a contract leaves: nothing has changed, or the worker has been sent the fatal message.
  abbrev pub Checked : Bool → Capture → ℕ → (s s' : Logger R) → Type 0
  Checked true c w s s' = s' ≡ s
  Checked false c w s s' = Sent build run_hook run_handler w c c.stack_trace s s'

  checked :
      (holds : Bool) {A : Type 0} (p : Place) (c : Comparisons A) (op : CheckOp)
      (text1 text2 : Text) (a b : A) (text : Text) (w : ℕ) (s : Logger R)
      → compare_values c op a b ≡ holds
      → s.logger_instance ≡ some w
      → s.hook ≡ Hook.does_nothing
      → s.fatal_handler ≡ none
      → s.recursive_counter ≡ 0
      → s.control ≡ Control.running
      → Checked holds
          (broken p op text1 text2 text)
          w
          s
          (check_op_statement build run_hook run_handler p c op text1 text2 a b text s)
  unfolding check_op_statement was_fatal
  checked true p c op text1 text2 a b text w s e l h d n r = ground (arith, e)
  checked false p c op text1 text2 a b text w s e l h d n r =
      subst
        (Sent build run_hook run_handler w (broken p op text1 text2 text)
          (broken p op text1 text2 text).stack_trace s)
        (sym (broken_statement p c op text1 text2 a b text s e))
        (fatal-Sent build run_hook run_handler w (broken p op text1 text2 text) s refl l h d n r)

  -- A statement with `CHECK_EQ` or its like, while a worker is active, the hook does nothing, no
  -- handler is set and no fatal message was there before, changes nothing where the comparison
  -- holds. Where it does not, the worker is sent a fatal message for SIGABRT at the level CONTRACT,
  -- with the comparison, the text of the statement and the stack dump, and the thread sleeps.
  pub check_op-Checked :
      {A : Type 0} (p : Place) (c : Comparisons A) (op : CheckOp) (text1 text2 : Text) (a b : A)
      (text : Text) (w : ℕ) (s : Logger R)
      → s.logger_instance ≡ some w
      → s.hook ≡ Hook.does_nothing
      → s.fatal_handler ≡ none
      → s.recursive_counter ≡ 0
      → s.control ≡ Control.running
      → Checked
          (compare_values c op a b)
          (broken p op text1 text2 text)
          w
          s
          (check_op_statement build run_hook run_handler p c op text1 text2 a b text s)
  check_op-Checked p c op text1 text2 a b text w s l h d n r =
      checked (compare_values c op a b) p c op text1 text2 a b text w s refl l h d n r
