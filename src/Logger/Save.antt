-- ===== src/Logger/Save.antt =====
-- src/g3log.cpp: `saveMessage`, the fatal calls behind it, and the shut down of a worker that is
-- not the active one.
use myg3log.Base.{
  ℕ, ◌+◌, ◌%◌, ◌^◌, Bool, true, false, not, [], ◌++◌, Option, none, some, if◌then◌else◌, ◌==◌, ltb,
}
use myg3log.Base.Int.{ℤ, pos}
use myg3log.Base.Text.{Text, codes}
use myg3log.Levels.{Level, was_fatal, log_level, warning}
use myg3log.Crash.Reason.{sigabrt}
use myg3log.Crash.Signals.{restore_signal_handler, exit_text}
use myg3log.Message.{LogMessage, FatalMessage, to_string, default_log_details}
use myg3log.Message.Build.{create, append_message, set_expression, fatal_message, reason}
use myg3log.Logger.{
  Control, Hook, Logger, Build, Capture, then_do, set_fatal_pre_logging_hook, shut_down_logging,
  fatal_to, push_message_to_logger,
}

-- The fatal text: the stack trace and, after a recursive crash, that of the first crash.
unfoldable pub fatal_text : Capture → ℕ → Option Text → Text
fatal_text c counter first =
    c.stack_trace
    ++ (if ltb 1 counter
        then codes "\n\n\nWARNING\n"
          ++ codes "A recursive crash detected. It is likely the hook set with "
          ++ codes "'setFatalPreLoggingHook(...)' is responsible\n\n"
          ++ codes "---First crash stacktrace: "
          ++ (elim first [ none ↦ [] | some t ↦ t ])
          ++ codes "\n---End of first stacktrace\n"
        else [])

module _ (build : Build) where
  -- The message that `saveMessage` builds first.
  unfoldable pub captured : Capture → LogMessage
  captured c = set_expression c.expression (
      append_message c.entry (
        create build.env.platform build.env.show_thread build.full_filename c.file c.line c.function
          c.level c.now c.thread))

  -- The warning of `shutDownLoggingForActiveOnly`, by `GLOG_LOG(WARNING)` at the time and on the
  -- thread given.
  unfoldable pub not_active_warning : ℕ → ℕ → Capture
  not_active_warning now thread = record {
    entry =
        codes "\n\t\tAttempted to shut down logging, but the ID of the "
        ++ codes "Logger is not the one that is active."
        ++ codes "\n\t\tHaving multiple instances of the g3::LogWorker is "
        ++ codes "likely a BUG"
        ++ codes "\n\t\tEither way, this call to shutDownLogging was ignored"
        ++ codes "\n\t\tTry g3::internal::shutDownLogging() instead";
    file = build.this_file;
    line = pos 138;
    function = codes "shutDownLoggingForActiveOnly";
    level = warning;
    expression = [];
    fatal_signal = sigabrt;
    stack_trace = [];
    now = now;
    thread = thread;
  }

module _ {R : Type 0} where
  -- What `saveMessage` does for a fatal level before it calls the hook.
  unfoldable pub enter_fatal : Capture → Logger R → Logger R
  unfolding set_fatal_pre_logging_hook
  enter_fatal c s = record (set_fatal_pre_logging_hook Hook.does_nothing s) {
    recursive_counter = (s.recursive_counter + 1) % 2 ^ 64;
    first_stack_trace = elim s.first_stack_trace [ none ↦ some c.stack_trace | some t ↦ some t ];
  }

module _ (build : Build) {R : Type 0} where
  -- `exitWithDefaultSignalHandler(level, fatal_signal_id)`.
  unfoldable pub exit_with : Level → ℤ → Logger R → Logger R
  exit_with level fatal_signal_id s = record s {
    signals =
        restore_signal_handler build.accepts build.no_signal_handling fatal_signal_id s.signals;
    stderr = s.stderr ++ exit_text level fatal_signal_id;
    control = Control.exited level fatal_signal_id;
  }

  -- `pushFatalMessageToLogger(message)`; `shouldBlockForFatalHandling()` is true on Unix.
  unfoldable pub push_fatal_message_to_logger : FatalMessage → Logger R → Logger R
  unfolding exit_with fatal_to
  push_fatal_message_to_logger f s = elim s.logger_instance [
    | none ↦
        let text =
          (to_string build.env.platform build.env.show_thread
            (default_log_details build.env.platform build.env.show_thread) f.log_message).1 in
        exit_with f.log_message.level f.signal_id (record s {
          stderr =
              s.stderr
              ++ (codes "FATAL CALL but logger is NOT initialized\nCAUSE: "
                  ++ reason f
                  ++ codes "\nMessage: \n"
                  ++ text);
        })
    | some w ↦ record (fatal_to w f s) { control = Control.blocked }
  ]

  -- The code of the user that is called back.
  module _ (run_hook : ℕ → Logger R → Logger R)
      (run_handler : ℕ → FatalMessage → Logger R → Logger R) where
    -- `fatalCall(message)`.
    unfoldable pub fatal_call : FatalMessage → Logger R → Logger R
    unfolding push_fatal_message_to_logger
    fatal_call f s = elim s.fatal_handler [
      | none ↦ push_fatal_message_to_logger f s
      | some h ↦ run_handler h f s
    ]

    -- What it does behind the hook.
    unfoldable pub leave_fatal : Capture → Logger R → Logger R
    unfolding captured fatal_text fatal_call
    leave_fatal c s =
        fatal_call
          (fatal_message
            (append_message (fatal_text c s.recursive_counter s.first_stack_trace)
              (captured build c))
            c.fatal_signal)
          s

    -- `fatalhook()`. A call of an empty function throws, and as the caller is a destructor that
    -- ends the process.
    unfoldable pub call_hook : Hook → Logger R → Logger R
    call_hook Hook.empty s = record s { control = Control.terminated }
    call_hook Hook.does_nothing s = s
    call_hook (Hook.user h) s = run_hook h s

    -- `saveMessage(entry, file, line, function, level, boolean_expression, fatal_signal,
    -- stack_trace)`.
    unfoldable pub save_message : Capture → Logger R → Logger R
    unfolding enter_fatal leave_fatal call_hook then_do captured push_message_to_logger
    save_message c s =
        if was_fatal c.level
        then then_do (leave_fatal c) (call_hook s.hook (enter_fatal c s))
        else push_message_to_logger (captured build c) s

    unfoldable pub warn_not_active : ℕ → ℕ → Logger R → Logger R
    unfolding save_message not_active_warning
    warn_not_active now thread s =
        let (on, levels') = log_level build.dynamic_levels warning s.levels in
        let s' = record s { levels = levels' } in
        if on then save_message (not_active_warning build now thread) s' else s'

    -- `shutDownLoggingForActiveOnly(active)`.
    unfoldable pub shut_down_logging_for_active_only : Option ℕ → ℕ → ℕ → Logger R → Bool × Logger R
    unfolding warn_not_active shut_down_logging
    shut_down_logging_for_active_only active now thread s =
        let other : Bool = elim s.logger_instance [
          | none ↦ false
          | some w ↦ elim active [ none ↦ false | some a ↦ not (a == w) ]
        ] in
        if other then (false, warn_not_active now thread s) else (true, shut_down_logging s)
