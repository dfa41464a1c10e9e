-- ===== src/Macros/Sending.antt =====
-- src/g3log/g3log.hpp, src/logcapture.cpp and src/g3log.cpp: from a statement to the queue of the
-- worker, which asks of it what Pipeline has as a request.
use myg3log.Base.{
  ℕ, ◌≡◌, refl, sym, ◌∙◌, ap, subst, arith, true, false, [], some, if◌then◌else◌, ◌==◌, Bool-cases,
  inl, inr,
}
use myg3log.Base.Text.{Text, c_str}
use myg3log.Levels.{Level, was_fatal, log_level}
use myg3log.Message.{LogMessage, FatalMessage, default_log_details, split_file_name}
use myg3log.Message.Build.{create, append_message, set_expression}
use myg3log.Logger.{Logger, Build, Capture, push_message_to_logger, save_to}
use myg3log.Logger.Save.{captured, save_message}
use myg3log.Logger.Start.{put_same, put_other}
use myg3log.Capture.{log_capture, write, to_capture}
use myg3log.Macros.Statements.{Place, internal_log_message, log_statement}
use myg3log.Pipeline.{save_request, issue}

module _ (build : Build) where
  -- The message that a statement stands for.
  abbrev pub stated : Place → Level → Text → LogMessage
  stated p level text = record {
    details = default_log_details build.env.platform build.env.show_thread;
    entry = record {
      timestamp = p.now;
      call_thread_id = p.thread;
      file = if build.full_filename then p.file else split_file_name p.file;
      file_path = p.file;
      line = p.line;
      function = p.function;
      level = level;
      expression = [];
      message = c_str text;
    };
  }

  captured-stated :
      (p : Place) (level : Level) (text : Text)
      → captured build (to_capture p.now p.thread (write text (internal_log_message p level)))
        ≡ stated p level text
  unfolding captured to_capture write internal_log_message log_capture set_expression append_message
      create
  captured-stated p level text = refl

module _ (build : Build) {R : Type 0} (run_hook : ℕ → Logger R → Logger R)
    (run_handler : ℕ → FatalMessage → Logger R → Logger R) where
  -- What a statement leaves: the worker `w` was asked to save the message if the level is on, and
  -- nothing was asked of any worker but this.
  pub record Stated (p : Place) (level : Level) (text : Text) (w : ℕ) (s s' : Logger R)
      : Type 0 where
    pub asked : s'.workers w ≡ (
        if (log_level build.dynamic_levels level s.levels).0
        then issue (save_request (stated build p level text)) (s.workers w)
        else s.workers w)
    pub others : (v : ℕ) → (w == v) ≡ false → s'.workers v ≡ s.workers v
    pub rest : s' ≡ record s { workers = s'.workers; levels = s'.levels }
    pub registered : s'.levels ≡ (log_level build.dynamic_levels level s.levels).1

  -- A message that is not fatal, while worker `w` is active.
  saved :
      (c : Capture) (w : ℕ) (s : Logger R)
      → was_fatal c.level ≡ false
      → s.logger_instance ≡ some w
      → save_message build run_hook run_handler c s ≡ save_to w (captured build c) s
  unfolding save_message push_message_to_logger
  saved c w s f l = ground (arith, f, l)

  abbrev switched : Level → Logger R → Logger R
  switched level s = record s { levels = (log_level build.dynamic_levels level s.levels).1 }

  statement_on :
      (p : Place) (level : Level) (text : Text) (s : Logger R)
      → (log_level build.dynamic_levels level s.levels).0 ≡ true
      → log_statement build run_hook run_handler p level text s
        ≡ save_message build run_hook run_handler
            (to_capture p.now p.thread (write text (internal_log_message p level)))
            (switched level s)
  unfolding log_statement
  statement_on p level text s on = ground (arith, on)

  statement_off :
      (p : Place) (level : Level) (text : Text) (s : Logger R)
      → (log_level build.dynamic_levels level s.levels).0 ≡ false
      → log_statement build run_hook run_handler p level text s ≡ switched level s
  unfolding log_statement
  statement_off p level text s off = ground (arith, off)

  saved_statement :
      (p : Place) (level : Level) (text : Text) (w : ℕ) (s : Logger R)
      → was_fatal level ≡ false
      → s.logger_instance ≡ some w
      → save_message build run_hook run_handler
          (to_capture p.now p.thread (write text (internal_log_message p level)))
          (switched level s)
        ≡ save_to w (stated build p level text) (switched level s)
  unfolding to_capture write internal_log_message log_capture
  saved_statement p level text w s f l =
      saved (to_capture p.now p.thread (write text (internal_log_message p level))) w
        (switched level s) f l
      ∙ ap (λ m. save_to w m (switched level s)) (captured-stated build p level text)

  Stated-saved :
      (p : Place) (level : Level) (text : Text) (w : ℕ) (s : Logger R)
      → (log_level build.dynamic_levels level s.levels).0 ≡ true
      → Stated p level text w s (save_to w (stated build p level text) (switched level s))
  unfolding save_to issue
  Stated-saved p level text w s on = record {
    asked = put_same s.workers w _ ∙ ground (arith, on);
    others = λ v n. put_other s.workers w v _ n;
    rest = refl;
    registered = refl;
  }

  -- A statement at a level that is not fatal, while a worker is active, asks the worker to save the
  -- message with the place and the text of the statement, if the level is on; if it is off nothing
  -- is asked. Nothing is asked of other workers, the table of the levels is that which the query of
  -- the level leaves, and the rest of the logging system, the thread included, stays as it is.
  pub log_statement-Stated :
      (p : Place) (level : Level) (text : Text) (w : ℕ) (s : Logger R)
      → was_fatal level ≡ false
      → s.logger_instance ≡ some w
      → Stated p level text w s (log_statement build run_hook run_handler p level text s)
  log_statement-Stated p level text w s f l =
      elim (Bool-cases (log_level build.dynamic_levels level s.levels).0) [
        | inl on ↦
            subst (Stated p level text w s)
              (sym (statement_on p level text s on ∙ saved_statement p level text w s f l))
              (Stated-saved p level text w s on)
        | inr off ↦
            subst (Stated p level text w s) (sym (statement_off p level text s off)) (record {
              asked = ground (arith, off);
              others = λ v n. refl;
              rest = refl;
              registered = refl;
            })
      ]
