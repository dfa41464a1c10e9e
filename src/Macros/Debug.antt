-- ===== src/Macros/Debug.antt =====
-- src/g3log/g3log.hpp: the macros for debug builds. They take the value of `DCHECK_IS_ON()`, which
-- is 0 with `NDEBUG` and without `DCHECK_ALWAYS_ON`, and 1 in other builds.
use myg3log.Base.{ℕ, Bool, if◌then◌else◌}
use myg3log.Base.Text.{Text}
use myg3log.Levels.{Level, debug}
use myg3log.Message.{FatalMessage}
use myg3log.Logger.{Logger, Build}
use myg3log.Capture.{write}
use myg3log.Macros.{glog_vlog}
use myg3log.Macros.Statements.{
  Place, Comparisons, CheckOp, internal_log_message, log_if_on, log_statement, log_if_statement,
  check_statement, check_op_statement, check_not_null_statement,
}

module _ (build : Build) {R : Type 0} (run_hook : ℕ → Logger R → Logger R)
    (run_handler : ℕ → FatalMessage → Logger R → Logger R) where
  -- `DLOG(level) << text`.
  unfoldable pub dlog : Bool → Place → Level → Text → Logger R → Logger R
  unfolding log_statement
  dlog is_on p level text s =
      if is_on then log_statement build run_hook run_handler p level text s else s

  -- `DVLOG(verboselevel) << text`.
  unfoldable pub dvlog : Bool → Place → (flags_v verboselevel : ℕ) → Text → Logger R → Logger R
  unfolding log_if_on internal_log_message write glog_vlog
  dvlog is_on p flags_v verboselevel text s =
      if is_on
      then log_if_on build run_hook run_handler (p.now, p.thread)
          (write text (internal_log_message p debug))
          (glog_vlog build.dynamic_levels flags_v verboselevel s.levels) s
      else s

  -- `DLOG_IF(level, condition) << text`.
  unfoldable pub dlog_if : Bool → Place → Level → Bool → Text → Logger R → Logger R
  unfolding log_if_statement
  dlog_if is_on p level condition text s =
      if is_on then log_if_statement build run_hook run_handler p level condition text s else s

  -- `DCHECK(condition) << text`.
  unfoldable pub dcheck : Bool → Place → (expression : Text) → Bool → Text → Logger R → Logger R
  unfolding check_statement
  dcheck is_on p expression holds text s =
      if is_on then check_statement build run_hook run_handler p expression holds text s else s

  -- `DCHECK_EQ(val1, val2) << text` and its like.
  unfoldable pub dcheck_op :
      Bool
      → {A : Type 0} → Place
      → Comparisons A
      → CheckOp
      → (text1 text2 : Text) (val1 val2 : A) → Text
      → Logger R
      → Logger R
  unfolding check_op_statement
  dcheck_op is_on p c op text1 text2 val1 val2 text s =
      if is_on
      then check_op_statement build run_hook run_handler p c op text1 text2 val1 val2 text s
      else s

  -- `DCHECK_NOTNULL(val)`.
  unfoldable pub dcheck_not_null :
      Bool
      → (this_file this_function : Text) → Place
      → (val_text : Text) → Bool
      → Logger R
      → Logger R
  unfolding check_not_null_statement
  dcheck_not_null is_on this_file this_function p val_text is_null s =
      if is_on
      then check_not_null_statement build run_hook run_handler this_file this_function p val_text
          is_null s
      else s
