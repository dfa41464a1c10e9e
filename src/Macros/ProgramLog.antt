-- ===== src/Macros/ProgramLog.antt =====
-- A program that logs and then breaks a contract, from its statements to its log file.
pub mod Tests
use myg3log.Base.{
  ℕ, ◌≡◌, refl, sym, ◌∙◌, ap, subst, Bool, false, List, [], ◌∷◌, ◌++◌, Option, none, some, map, All,
}
use myg3log.Base.Int.{ℤ}
use myg3log.Base.Text.{Text}
use myg3log.Levels.{Level, was_fatal}
use myg3log.Message.{LogMessage, FatalMessage}
use myg3log.Message.Build.{append_message, fatal_message}
use myg3log.Active.{Active}
use myg3log.LogWorker.{Worker, Job, final_message}
use myg3log.Logger.{Control, Hook, Logger, Build, Capture}
use myg3log.Logger.Save.{captured}
use myg3log.FileSink.{FileSink, Stream}
use myg3log.Macros.Statements.{Place, Comparisons, CheckOp, compare_values, check_op_statement}
use myg3log.Macros.Contracts.{broken, Checked, check_op-Checked}
use myg3log.Macros.Programs.{
  Statement, saves_of, issue_all, run_statements, run_statements-Executed,
}
use myg3log.Pipeline.{
  Request, save_request, fatal_request, add_request, create_worker, issue, Reach,
}
use myg3log.Pipeline.Journal.{Harmless, entries}
use myg3log.Pipeline.LogFile.{
  receive, shut_down, exit_line, file_journal, due_header, log_file_at_end,
}

module _ (build : Build) where
  -- The fatal message of a broken contract.
  abbrev pub contract_message : Capture → FatalMessage
  contract_message c =
      fatal_message (append_message c.stack_trace (captured build c)) c.fatal_signal

  -- What a program asks of its worker: to add the sink, to save the messages of its statements,
  -- and to log the broken contract.
  abbrev pub program_requests :
      {R : Type 0}
      → R
      → (LogMessage → R → R)
      → (R → R)
      → List LogMessage
      → Capture
      → List (Request R)
  program_requests real call destructor ms c =
      (add_request real call destructor ∷ map save_request ms)
      ++ fatal_request (contract_message c) ∷ []

module _ {R : Type 0} where
  -- The logging system at the start of `main`: worker `w` is active and was asked to add a sink,
  -- and nothing fatal has happened.
  pub record IsStarted (real : R) (call : LogMessage → R → R) (destructor : R → R) (logging : Bool)
      (w : ℕ) (s : Logger R) : Type 0 where
    pub active : s.logger_instance ≡ some w
    pub sink_added :
        s.workers w ≡ issue (add_request real call destructor) (create_worker logging).0
    pub no_hook : s.hook ≡ Hook.does_nothing
    pub no_handler : s.fatal_handler ≡ none
    pub no_crash : s.recursive_counter ≡ 0
    pub runs : s.control ≡ Control.running

pub issue_all-append :
    {R : Type 0} (xs ys : List (Request R)) (bg : Active (Job R))
    → issue_all (xs ++ ys) bg ≡ issue_all ys (issue_all xs bg)
issue_all-append [] ys bg = refl
issue_all-append (x ∷ xs) ys bg = issue_all-append xs ys (issue x bg)

module _ (build : Build) {R : Type 0} (run_hook : ℕ → Logger R → Logger R)
    (run_handler : ℕ → FatalMessage → Logger R → Logger R) where
  program_asks :
      (sts : List Statement) {A : Type 0} (p : Place) (c : Comparisons A) (op : CheckOp)
      (text1 text2 : Text) (a b : A) (text : Text) (real : R) (call : LogMessage → R → R)
      (destructor : R → R) (logging : Bool) (w : ℕ) (s : Logger R)
      → All (λ st. was_fatal st.level ≡ false) sts
      → compare_values c op a b ≡ false
      → IsStarted real call destructor logging w s
      → (check_op_statement build run_hook run_handler p c op text1 text2 a b text
            (run_statements build run_hook run_handler sts s)).workers
          w
        ≡ issue_all
            (program_requests build real call destructor
              (saves_of build sts s.levels)
              (broken p op text1 text2 text))
            (create_worker logging).0
  unfolding issue
  program_asks sts p c op text1 text2 a b text real call destructor logging w s n e h =
      let s1 = run_statements build run_hook run_handler sts s in
      let done = run_statements-Executed build run_hook run_handler sts w s n h.active in
      let checked =
        check_op-Checked build run_hook run_handler p c op text1 text2 a b text w s1
          (ap (λ x. x.logger_instance) done.rest ∙ h.active)
          (ap (λ x. x.hook) done.rest ∙ h.no_hook)
          (ap (λ x. x.fatal_handler) done.rest ∙ h.no_handler)
          (ap (λ x. x.recursive_counter) done.rest ∙ h.no_crash)
          (ap (λ x. x.control) done.rest ∙ h.runs) in
      let crash = broken p op text1 text2 text in
      let s2 = check_op_statement build run_hook run_handler p c op text1 text2 a b text s1 in
      let sent =
        subst (λ holds. Checked build run_hook run_handler holds crash w s1 s2) e checked in
      let saves = map save_request (saves_of build sts s.levels) in
      sent.one_message
      ∙ ap (issue (fatal_request (contract_message build crash)))
          (done.asked ∙ ap (issue_all saves) h.sink_added)
      ∙ sym (
          issue_all-append (add_request real call destructor ∷ saves)
            (fatal_request (contract_message build crash) ∷ []) (create_worker logging).0)

module _ (build : Build) (run_hook : ℕ → Logger (Option FileSink) → Logger (Option FileSink))
    (run_handler : ℕ → FatalMessage → Logger (Option FileSink) → Logger (Option FileSink)) where
  -- While the hook does nothing and no handler is set, a program adds a file sink with an open file
  -- to its worker, executes statements that are not
  -- fatal and then one with a comparison that does not hold. It has then asked the worker to add
  -- the sink, to save the messages of the statements whose level was on, and to log the broken
  -- contract, in this order. However the threads of the worker and of the sink take turns with
  -- these requests, and whatever calls are made through the handle that leave the file, the level,
  -- the format and the header alone, when the process has ended the file holds what it held, the
  -- header if that was due, the texts of these messages that are not below the level of the sink,
  -- in order and the broken contract last, and the line of the destructor on the shutdown.
  pub program_log_file :
      (sts : List Statement) {A : Type 0} (p : Place) (c : Comparisons A) (op : CheckOp)
      (text1 text2 : Text) (a b : A) (text : Text) (sink : FileSink) (out : Stream) (logging : Bool)
      (w now later : ℕ) (s : Logger (Option FileSink))
      {state : Active (Job (Option FileSink)) × Worker (Option FileSink)} (by : Level × ℤ)
      → All (λ st. was_fatal st.level ≡ false) sts
      → compare_values c op a b ≡ false
      → sink.outptr ≡ some out
      → IsStarted (some sink) (receive build.env now) (shut_down build.env later) logging w s
      → Reach build.env
          (Harmless (file_journal build.env now later sink.log_details_func sink.min_log_level))
          logging
          (program_requests build
            (some sink)
            (receive build.env now)
            (shut_down build.env later)
            (saves_of build sts s.levels)
            (broken p op text1 text2 text))
          state
      → state.1.exited ≡ some by
      → ((check_op_statement build run_hook run_handler p c op text1 text2 a b text
              (run_statements build run_hook run_handler sts s)).workers
            w
          ≡ issue_all
              (program_requests build
                (some sink)
                (receive build.env now)
                (shut_down build.env later)
                (saves_of build sts s.levels)
                (broken p op text1 text2 text))
              (create_worker logging).0)
        × ((left : FileSink) × (end : Stream) × (state.1.closed ≡ some (some left) ∷ [])
            × (left.outptr ≡ some end)
            × (end.written
                ≡ out.written
                  ++ due_header build.env now sink
                  ++ entries
                      (file_journal build.env now later sink.log_details_func sink.min_log_level)
                      (saves_of build sts s.levels
                        ++ final_message build.env
                            (contract_message build (broken p op text1 text2 text))
                          ∷ [])
                  ++ exit_line build.env later))
  program_log_file sts p c op text1 text2 a b text sink out logging w now later s by n e o h r x = (
    program_asks build run_hook run_handler sts p c op text1 text2 a b text (some sink)
        (receive build.env now) (shut_down build.env later) logging w s n e h,
    log_file_at_end build.env now later sink out (saves_of build sts s.levels)
        (contract_message build (broken p op text1 text2 text)) [] by o r x,
  )
