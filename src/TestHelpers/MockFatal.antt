-- ===== src/TestHelpers/MockFatal.antt =====
-- src/test_unit/testing_helpers.cpp and src/g3log.cpp: fatal messages with the mock as the handler.
use myg3log.Base.{
  ℕ, ◌≡◌, refl, sym, ◌∙◌, ap, subst, arith, true, false, ◌++◌, some, ◌==◌, append_assoc,
}
use myg3log.Base.Text.{Text}
use myg3log.Levels.{was_fatal}
use myg3log.Message.{FatalMessage, default_log_details}
use myg3log.Message.Build.{append_message, fatal_message, set_expression, create, copy}
use myg3log.Message.Format.{heading, to_string-Shows}
use myg3log.LogWorker
use myg3log.LogWorker.{default_text}
use myg3log.Logger.{Control, Hook, Logger, Build, Capture, then_do, push_message_to_logger, save_to}
use myg3log.Logger.Save.{
  captured, enter_fatal, leave_fatal, call_hook, fatal_call, fatal_text, save_message,
}
use myg3log.Logger.Start.{put_same, put_other}
use myg3log.TestHelpers.{Mock, mock_fatal_call, clear_mock_fatal, verify_content}
use myg3log.TestHelpers.Content.{verify-Holds}

module _ (build : Build) {R : Type 0} (run_hook : ℕ → Logger R → Logger R) where
  -- The mock as a handler, seen from the logging system.
  abbrev pub mock_handler : ℕ → FatalMessage → Logger R → Logger R
  mock_handler h f s = (mock_fatal_call build f (clear_mock_fatal, s)).1

  -- The fatal message that the mock is given.
  abbrev pub given_to_mock : Capture → Logger R → FatalMessage
  given_to_mock c s =
      fatal_message
        (append_message
          (fatal_text c (enter_fatal c s).recursive_counter (enter_fatal c s).first_stack_trace)
          (captured build c))
        c.fatal_signal

  -- The worker was asked to save the message as one that is not fatal; the thread goes on.
  pub record Survives (w : ℕ) (c : Capture) (s s' : Logger R) : Type 0 where
    pub asked : s'.workers w ≡ LogWorker.save (given_to_mock c s).log_message (s.workers w)
    pub others : (v : ℕ) → (w == v) ≡ false → s'.workers v ≡ s.workers v
    pub goes_on : s'.control ≡ Control.running
    pub active : s'.logger_instance ≡ some w

  mocked :
      (w h : ℕ) (c : Capture) (s : Logger R)
      → was_fatal c.level ≡ true
      → s.logger_instance ≡ some w
      → s.hook ≡ Hook.does_nothing
      → s.fatal_handler ≡ some h
      → s.control ≡ Control.running
      → save_message build run_hook mock_handler c s
        ≡ save_to w (given_to_mock c s).log_message (enter_fatal c s)
  unfolding save_message call_hook then_do leave_fatal fatal_call mock_fatal_call
      push_message_to_logger
  mocked w h c s f l d n r = ground (arith, f, l, d, n, r)

  -- What the mock remembers of a message: a text that shows the entry, and the signal.
  pub record Remembers (c : Capture) (mock : Mock) : Type 0 where
    pub shows_entry : verify_content mock.message c.entry ≡ true
    pub has_signal : mock.signal ≡ c.fatal_signal
    pub called : mock.was_called ≡ true

  regroup :
      (head middle entry trace after : Text)
      → head ++ (middle ++ ((entry ++ trace) ++ after))
        ≡ (head ++ middle) ++ (entry ++ (trace ++ after))
  regroup head middle entry trace after =
      sym (append_assoc head middle _)
      ∙ ap (λ t. (head ++ middle) ++ t) (append_assoc entry trace after)

  -- The trace behind the entry in the message that the mock is given.
  abbrev trace : Capture → Logger R → Text
  trace c s = fatal_text c (enter_fatal c s).recursive_counter (enter_fatal c s).first_stack_trace

  shown :
      (c : Capture) (s : Logger R)
      → verify_content (default_text build.env (given_to_mock c s).log_message) c.entry ≡ true
  unfolding default_text captured fatal_message append_message set_expression create copy
  shown c s =
      let platform = build.env.platform in
      let show_thread = build.env.show_thread in
      let details = default_log_details platform show_thread in
      let m = (given_to_mock c s).log_message in
      let (middle, after, e) = to_string-Shows platform show_thread details m in
      let head = heading platform show_thread details m.entry in
      ap (λ t. verify_content t c.entry) (e ∙ regroup head middle c.entry (trace c s) after)
      ∙ verify-Holds (head ++ middle) c.entry (trace c s ++ after)

  -- A fatal entry, while worker `w` is active, the hook does nothing and the mock is the handler, does
  -- not end the process: the worker is asked to save the message with the entry and the stack
  -- trace, other workers are asked nothing, and the thread goes on. The mock remembers the signal
  -- and a text in which `verifyContent` finds the entry.
  pub mock_fatal_call-Survives :
      (w h : ℕ) (c : Capture) (mock : Mock) (s : Logger R)
      → was_fatal c.level ≡ true
      → s.logger_instance ≡ some w
      → s.hook ≡ Hook.does_nothing
      → s.fatal_handler ≡ some h
      → s.control ≡ Control.running
      → Survives w c s (save_message build run_hook mock_handler c s)
        × Remembers c (mock_fatal_call build (given_to_mock c s) (mock, enter_fatal c s)).0
  unfolding mock_fatal_call fatal_message save_to enter_fatal
  mock_fatal_call-Survives w h c mock s f l d n r = (
    subst (Survives w c s) (sym (mocked w h c s f l d n r)) (record {
      asked = put_same s.workers w _;
      others = λ v e. put_other s.workers w v _ e;
      goes_on = r;
      active = l;
    }),
    record { shows_entry = shown c s; has_signal = refl; called = refl },
  )
