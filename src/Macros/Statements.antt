-- ===== src/Macros/Statements.antt =====
-- src/g3log/g3log.hpp: a whole statement that is written with a macro. The macro decides, opens a
-- capture, what follows in the statement writes to it, and at the end of the statement the capture
-- is destroyed, which hands the entry to the logging system.
use myg3log.Base.{ℕ, Bool, List, [], ◌++◌, Option, none, some, if◌then◌else◌}
use myg3log.Base.Int.{ℤ}
use myg3log.Base.Text.{Text, codes}
use myg3log.Levels.{Level, LogLevels}
use myg3log.Crash.Reason.{sigabrt}
use myg3log.Message.{FatalMessage}
use myg3log.Logger.{Logger, Build}
use myg3log.Capture.{LogCapture, log_capture, write, capturef, destroy}
use myg3log.Macros.{glog_log, glog_log_if, check, check_not_null}

-- Where a statement stands, and what the system knows of the thread that executes it.
pub record Place : Type 0 where
  pub file : Text
  pub line : ℤ
  pub function : Text
  pub now : ℕ
  pub thread : ℕ
  pub demangle : Text → Option Text
  pub backtrace : List Text

-- `INTERNAL_LOG_MESSAGE(level)`.
unfoldable pub internal_log_message : Place → Level → LogCapture
unfolding log_capture
internal_log_message p level =
    log_capture p.demangle p.backtrace p.file p.line p.function level [] sigabrt none

-- A printf call: the format, and the text that it gives with its arguments.
pub record PrintfCall : Type 0 where
  pub printf_like_message : Text
  pub formatted : Option Text

-- The relations of the `CHECK_OP` macros, in the type of the values.
pub record Comparisons (A : Type 0) : Type 0 where
  pub eq : A → A → Bool
  pub ne : A → A → Bool
  pub le : A → A → Bool
  pub lt : A → A → Bool
  pub ge : A → A → Bool
  pub gt : A → A → Bool

pub data CheckOp : Type 0 where
  check_eq check_ne check_le check_lt check_ge check_gt : CheckOp

unfoldable pub operator_text : CheckOp → Text
operator_text CheckOp.check_eq = codes "=="
operator_text CheckOp.check_ne = codes "!="
operator_text CheckOp.check_le = codes "<="
operator_text CheckOp.check_lt = codes "<"
operator_text CheckOp.check_ge = codes ">="
operator_text CheckOp.check_gt = codes ">"

unfoldable pub compare_values : {A : Type 0} → Comparisons A → CheckOp → A → A → Bool
compare_values c CheckOp.check_eq a b = c.eq a b
compare_values c CheckOp.check_ne a b = c.ne a b
compare_values c CheckOp.check_le a b = c.le a b
compare_values c CheckOp.check_lt a b = c.lt a b
compare_values c CheckOp.check_ge a b = c.ge a b
compare_values c CheckOp.check_gt a b = c.gt a b

-- `CHECK_EQ(val1, val2)` and its like, for the texts of the operands and their values.
unfoldable pub check_op :
    {A : Type 0}
    → Place
    → Comparisons A
    → CheckOp
    → (text1 text2 : Text) (val1 val2 : A) → Option LogCapture
unfolding check operator_text compare_values
check_op p c op text1 text2 val1 val2 =
    check p.demangle p.backtrace p.file p.line p.function
      (codes "(" ++ text1 ++ codes ") " ++ operator_text op ++ codes " (" ++ text2 ++ codes ")")
      (compare_values c op val1 val2)

module _ (build : Build) {R : Type 0} (run_hook : ℕ → Logger R → Logger R)
    (run_handler : ℕ → FatalMessage → Logger R → Logger R) where
  -- The end of a statement for which the decision is taken.
  unfoldable pub log_if_on : (ℕ × ℕ) → LogCapture → Bool × LogLevels → Logger R → Logger R
  unfolding destroy
  log_if_on (now, thread) c (on, levels') s =
      let s' : Logger R = record s { levels = levels' } in
      if on then destroy build run_hook run_handler now thread c s' else s'

  -- `GLOG_LOG(level) << text`.
  unfoldable pub log_statement : Place → Level → Text → Logger R → Logger R
  unfolding log_if_on internal_log_message write glog_log
  log_statement p level text s =
      log_if_on (p.now, p.thread) (write text (internal_log_message p level))
        (glog_log build.dynamic_levels level s.levels) s

  -- `GLOG_LOG_IF(level, boolean_expression) << text`.
  unfoldable pub log_if_statement : Place → Level → Bool → Text → Logger R → Logger R
  unfolding log_if_on internal_log_message write glog_log_if
  log_if_statement p level boolean_expression text s =
      log_if_on (p.now, p.thread) (write text (internal_log_message p level))
        (glog_log_if build.dynamic_levels level boolean_expression s.levels) s

  -- `GLOG_LOGF(level, printf_like_message, ...)`, for a buffer of the size given.
  unfoldable pub logf_statement : Place → Level → ℕ → PrintfCall → Logger R → Logger R
  unfolding log_if_on internal_log_message capturef glog_log
  logf_statement p level size call s =
      log_if_on (p.now, p.thread)
        (capturef size call.printf_like_message call.formatted (internal_log_message p level))
        (glog_log build.dynamic_levels level s.levels) s

  -- `GLOG_LOGF_IF(level, boolean_expression, printf_like_message, ...)`.
  unfoldable pub logf_if_statement : Place → Level → Bool → ℕ → PrintfCall → Logger R → Logger R
  unfolding log_if_on internal_log_message capturef glog_log_if
  logf_if_statement p level boolean_expression size call s =
      log_if_on (p.now, p.thread)
        (capturef size call.printf_like_message call.formatted (internal_log_message p level))
        (glog_log_if build.dynamic_levels level boolean_expression s.levels) s

  -- The end of a statement with a contract, which is written to if it is broken.
  unfoldable pub end_contract :
      (LogCapture → LogCapture) → Place → Option LogCapture → Logger R → Logger R
  unfolding destroy
  end_contract writes p broken s = elim broken [
    | none ↦ s
    | some c ↦ destroy build run_hook run_handler p.now p.thread (writes c) s
  ]

  -- `CHECK(boolean_expression) << text`.
  unfoldable pub check_statement : Place → (expression : Text) → Bool → Text → Logger R → Logger R
  unfolding end_contract check write
  check_statement p expression holds text s =
      end_contract (write text) p
        (check p.demangle p.backtrace p.file p.line p.function expression holds) s

  -- `CHECKF(boolean_expression, printf_like_message, ...)`, and `CHECK_F`.
  unfoldable pub checkf_statement :
      Place → (expression : Text) → Bool → ℕ → PrintfCall → Logger R → Logger R
  unfolding end_contract check capturef
  checkf_statement p expression holds size call s =
      end_contract (capturef size call.printf_like_message call.formatted) p
        (check p.demangle p.backtrace p.file p.line p.function expression holds) s

  -- `CHECK_EQ(val1, val2) << text` and its like.
  unfoldable pub check_op_statement :
      {A : Type 0}
      → Place
      → Comparisons A
      → CheckOp
      → (text1 text2 : Text) (val1 val2 : A) → Text
      → Logger R
      → Logger R
  unfolding end_contract check_op write
  check_op_statement p c op text1 text2 val1 val2 text s =
      end_contract (write text) p (check_op p c op text1 text2 val1 val2) s

  -- `CHECK_NOTNULL(val)`, for the file and the name of the helper that it calls.
  unfoldable pub check_not_null_statement :
      (this_file this_function : Text) → Place → (val_text : Text) → Bool → Logger R → Logger R
  unfolding end_contract check_not_null
  check_not_null_statement this_file this_function p val_text is_null s =
      end_contract (λ c. c) p
        (check_not_null p.demangle p.backtrace this_file this_function p.file p.line
          (codes "'" ++ val_text ++ codes "' Must be non NULL") is_null)
        s
