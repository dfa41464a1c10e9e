-- ===== src/Logger/Recursion.antt =====
-- src/g3log.cpp: a fatal message, and a crash in the hook that is called before it.
use myg3log.Base.{
  ℕ, ◌≡◌, ◌⊎◌, inl, inr, refl, ap, ap₂, ◌∙◌, arith, true, false, ◌++◌, none, some, ◌==◌, Bool-cases,
  append-nil,
}
use myg3log.Base.Text.{Text, codes}
use myg3log.Levels.{was_fatal, warning, log_level}
use myg3log.Message.{LogMessage, FatalMessage}
use myg3log.Message.Build.{fatal_message, append_message}
use myg3log.LogWorker
use myg3log.Active.{Active}
use myg3log.Logger.{
  Control, Hook, Logger, Build, Capture, then_do, fatal_to, push_message_to_logger, save_to,
  shut_down_logging,
}
use myg3log.Logger.Save.{
  captured, enter_fatal, leave_fatal, call_hook, fatal_call, fatal_text,
  push_fatal_message_to_logger, save_message, shut_down_logging_for_active_only, warn_not_active,
  not_active_warning,
}

-- What a message shows of a crash while another one was handled.
abbrev pub recursion_text : Capture → Capture → Text
recursion_text nested first =
    nested.stack_trace
    ++ (codes "\n\n\nWARNING\n"
        ++ codes "A recursive crash detected. It is likely the hook set with "
        ++ codes "'setFatalPreLoggingHook(...)' is responsible\n\n"
        ++ codes "---First crash stacktrace: "
        ++ first.stack_trace
        ++ codes "\n---End of first stacktrace\n")

warning-not_fatal : was_fatal warning ≡ false
unfolding was_fatal
warning-not_fatal = refl

module _ (build : Build) {R : Type 0} (run_hook : ℕ → Logger R → Logger R)
    (run_handler : ℕ → FatalMessage → Logger R → Logger R) where
  -- The thread sleeps, and the worker has been sent one fatal message, the capture's with a text
  -- behind its entry.
  pub record Sent (w : ℕ) (c : Capture) (text : Text) (s s' : Logger R) : Type 0 where
    pub sleeps : s'.control ≡ Control.blocked
    pub one_message :
        s'.workers w
        ≡ LogWorker.fatal
            (fatal_message (append_message text (captured build c)) c.fatal_signal)
            (s.workers w)

  abbrev message_with : ℕ → Capture → Logger R → Text → Active (LogWorker.Job R)
  message_with w c s text =
      LogWorker.fatal (fatal_message (append_message text (captured build c)) c.fatal_signal)
        (s.workers w)

  leave-Sent :
      (w : ℕ) (c : Capture) (s : Logger R)
      → s.logger_instance ≡ some w
      → s.fatal_handler ≡ none
      → Sent w c
          (fatal_text c s.recursive_counter s.first_stack_trace)
          s
          (leave_fatal build run_hook run_handler c s)
  unfolding leave_fatal fatal_call push_fatal_message_to_logger fatal_to
  leave-Sent w c s l h = record { sleeps = ground arith; one_message = ground arith }

  -- A fatal message, while a worker is active, the hook does nothing and no handler is set, and no fatal
  -- message was there before, is sent to the worker with the stack trace behind its entry. The
  -- calling thread then sleeps.
  pub fatal-Sent :
      (w : ℕ) (c : Capture) (s : Logger R)
      → was_fatal c.level ≡ true
      → s.logger_instance ≡ some w
      → s.hook ≡ Hook.does_nothing
      → s.fatal_handler ≡ none
      → s.recursive_counter ≡ 0
      → s.control ≡ Control.running
      → Sent w c c.stack_trace s (save_message build run_hook run_handler c s)
  unfolding save_message call_hook then_do enter_fatal fatal_text
  fatal-Sent w c s f l h d n r =
      let s1 = enter_fatal c s in
      let d = leave-Sent w c s1 (ground arith) (ground arith) in
      let e : save_message build run_hook run_handler c s
          ≡ leave_fatal build run_hook run_handler c s1 =
        ground arith in
      let t : fatal_text c s1.recursive_counter s1.first_stack_trace ≡ c.stack_trace =
        ground (arith, append-nil c.stack_trace) in
      rw e (record { sleeps = d.sleeps; one_message = d.one_message ∙ ap (message_with w c s) t })

  -- The hook of the first fatal message crashes, so that `saveMessage` is called again in it with a
  -- fatal message, while a worker is active and no handler is set. The worker is sent one message,
  -- that of the crash in the hook, with a warning and the stack trace of the first crash; the
  -- thread sleeps. Neither is the hook called again, nor is the first message sent.
  pub recursive_crash :
      (h w : ℕ) (first nested : Capture) (s : Logger R)
      → was_fatal first.level ≡ true
      → was_fatal nested.level ≡ true
      → s.logger_instance ≡ some w
      → s.hook ≡ Hook.user h
      → s.fatal_handler ≡ none
      → s.first_stack_trace ≡ none
      → s.recursive_counter ≡ 0
      → s.control ≡ Control.running
      → run_hook h (enter_fatal first s)
        ≡ save_message build run_hook run_handler nested (enter_fatal first s)
      → Sent w nested
          (recursion_text nested first)
          s
          (save_message build run_hook run_handler first s)
  unfolding save_message call_hook then_do enter_fatal fatal_text
  recursive_crash h w first nested s f g l k d t n r crash =
      let s1 = enter_fatal first s in
      let s2 = enter_fatal nested s1 in
      let s3 = leave_fatal build run_hook run_handler nested s2 in
      let sent = leave-Sent w nested s2 (ground arith) (ground arith) in
      let inner : save_message build run_hook run_handler nested s1 ≡ s3 = ground arith in
      let outer : save_message build run_hook run_handler first s ≡ s3 =
        ground (arith, crash, inner, sent.sleeps) in
      let text : fatal_text nested s2.recursive_counter s2.first_stack_trace
          ≡ recursion_text nested first =
        ap₂ (fatal_text nested) (let e : s2.recursive_counter ≡ 2 = ground arith in e)
          (let e : s2.first_stack_trace ≡ some first.stack_trace = ground arith in e) in
      rw outer (record {
        sleeps = sent.sleeps;
        one_message = sent.one_message ∙ ap (message_with w nested s) text;
      })

  push_keeps :
      (m : LogMessage) (w : ℕ) (s : Logger R)
      → s.logger_instance ≡ some w
      → (push_message_to_logger m s).logger_instance ≡ some w
  unfolding push_message_to_logger save_to
  push_keeps m w s l = ground arith

  warning_keeps :
      (c : Capture) (w : ℕ) (s : Logger R)
      → was_fatal c.level ≡ false
      → s.logger_instance ≡ some w
      → (save_message build run_hook run_handler c s).logger_instance ≡ some w
  unfolding save_message
  warning_keeps c w s f l = ground (arith, push_keeps (captured build c) w s l)

  warn_keeps :
      (now thread w : ℕ) (s : Logger R)
      → s.logger_instance ≡ some w
      → (warn_not_active build run_hook run_handler now thread s).logger_instance ≡ some w
  unfolding warn_not_active not_active_warning
  warn_keeps now thread w s l =
      let (on, levels') = log_level build.dynamic_levels warning s.levels in
      let s' = record s { levels = levels' } in
      ground (arith, warning_keeps (not_active_warning build now thread) w s' warning-not_fatal l)

  -- `shutDownLoggingForActiveOnly` while the worker `w` is active: for that worker it answers true
  -- and no worker is active afterwards; for another it answers false and `w` stays active.
  pub shut_down_only_own :
      (a w now thread : ℕ) (s : Logger R)
      → s.logger_instance ≡ some w
      → let r =
          shut_down_logging_for_active_only build run_hook run_handler (some a) now thread s in
        (((a == w) ≡ true) × (r.0 ≡ true) × (r.1.logger_instance ≡ none))
        ⊎ (((a == w) ≡ false) × (r.0 ≡ false) × (r.1.logger_instance ≡ some w))
  unfolding shut_down_logging_for_active_only shut_down_logging
  shut_down_only_own a w now thread s l = elim (Bool-cases (a == w)) [
    | inl e ↦ inl (e, ground arith, ground arith)
    | inr e ↦ inr (e, ground arith, ground (arith, warn_keeps now thread w s l))
  ]
