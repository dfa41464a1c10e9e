-- ===== src/Pipeline/LogFile.antt =====
-- src/filesink.cpp as a sink of the worker: what stands in the log file at the end of the process.
use myg3log.Base.{
  ℕ, ◌≡◌, refl, sym, ◌∙◌, ap, ap₂, Bool, false, arith, List, [], ◌∷◌, ◌++◌, Option, none, some, map,
  append_assoc, append-nil, if◌then◌else◌,
}
use myg3log.Base.Int.{ℤ}
use myg3log.Base.Text.{Text, codes}
use myg3log.Levels.{Level}
use myg3log.FileName.{header}
use myg3log.Message.{LogMessage, LogDetailsFunc, FatalMessage}
use myg3log.Active.{Active}
use myg3log.FileSink.{Environment, Stream, FileSink, file_write, destroy, write, ◌>>=◌}
use myg3log.Time.{localtime_formatted, time_formatted}
use myg3log.FileSink.Writing.{logged, file_write_lem}
use myg3log.LogWorker.{Worker, Job, final_message}
use myg3log.Pipeline.{Request, save_request, fatal_request, add_request, Reach}
use myg3log.Pipeline.Journal.{Journal, Harmless, entries, text_at_end}

-- `none` is a sink that has written through a null pointer.
abbrev pub receive : Environment → ℕ → LogMessage → Option FileSink → Option FileSink
receive env now m r = r >>= file_write env now m

-- `~FileSink()` at the time `later`, but for what goes to the standard error.
abbrev pub shut_down : Environment → ℕ → Option FileSink → Option FileSink
shut_down env later r = r >>= (λ s. destroy env later s >>= (λ (s', err). some s'))

-- The last line of a log file.
abbrev pub exit_line : Environment → ℕ → Text
exit_line env later =
    codes "g3log g3FileSink shutdown at: "
    ++ localtime_formatted env.platform later time_formatted
    ++ codes "\n"

module _ (env : Environment) (now : ℕ) where
  -- What was written, and the header as long as it is due.
  abbrev pub text_with_header : FileSink → Text
  text_with_header s = elim s.outptr [
    | none ↦ []
    | some out ↦ out.written ++ (if s.first_entry then header env.platform now s.log_header else [])
  ]

  abbrev pub file_text : Option FileSink → Text
  file_text r = elim r [ none ↦ [] | some s ↦ text_with_header s ]

  -- An open file, for entries in the given format from the given level on.
  pub record IsOpen (details : LogDetailsFunc) (level : Level) (r : Option FileSink) : Type 0 where
    pub sink : FileSink
    pub out : Stream
    pub is_sink : r ≡ some sink
    pub is_open : sink.outptr ≡ some out
    pub has_details : sink.log_details_func ≡ details
    pub has_level : sink.min_log_level ≡ level

  abbrev pub due_header : FileSink → Text
  due_header s = if s.first_entry then header env.platform now s.log_header else []

  abbrev grown : FileSink → Stream → LogMessage → Stream
  grown s out m = record out {
    written = out.written ++ (due_header s ++ logged env s.log_details_func s.min_log_level m);
  }

  received :
      (details : LogDetailsFunc) (level : Level) (m : LogMessage) (r : Option FileSink)
      (h : IsOpen details level r)
      → receive env now m r
        ≡ some (record (h.sink) { outptr = some (grown h.sink h.out m); first_entry = false })
  received details level m r h =
      ap (receive env now m) h.is_sink ∙ file_write_lem env now m h.sink h.out h.is_open

  pub receive-IsOpen :
      (details : LogDetailsFunc) (level : Level) (m : LogMessage) (r : Option FileSink)
      → IsOpen details level r
      → IsOpen details level (receive env now m r)
  receive-IsOpen details level m r h = record {
    sink = record (h.sink) { outptr = some (grown h.sink h.out m); first_entry = false };
    out = grown h.sink h.out m;
    is_sink = received details level m r h;
    is_open = refl;
    has_details = h.has_details;
    has_level = h.has_level;
  }

  open_text :
      (s : FileSink) (out : Stream)
      → s.outptr ≡ some out
      → text_with_header s ≡ out.written ++ due_header s
  open_text s out e = ground (arith, e)

  pub file_text-receive :
      (details : LogDetailsFunc) (level : Level) (m : LogMessage) (r : Option FileSink)
      → IsOpen details level r
      → file_text (receive env now m r) ≡ file_text r ++ logged env details level m
  file_text-receive details level m r h =
      let before : file_text r ≡ h.out.written ++ due_header h.sink =
        ap file_text h.is_sink ∙ open_text h.sink h.out h.is_open in
      let entry : logged env h.sink.log_details_func h.sink.min_log_level m
          ≡ logged env details level m =
        ap₂ (λ d l. logged env d l m) h.has_details h.has_level in
      ap file_text (received details level m r h)
      ∙ append-nil (grown h.sink h.out m).written
      ∙ sym (append_assoc h.out.written (due_header h.sink) _)
      ∙ ap₂ ◌++◌ (sym before) entry

  abbrev pub has_due : Option FileSink → Bool
  has_due r = elim r [ none ↦ false | some s ↦ s.first_entry ]

  pub receive-written :
      (details : LogDetailsFunc) (level : Level) (m : LogMessage) (r : Option FileSink)
      → IsOpen details level r
      → has_due (receive env now m r) ≡ false
  receive-written details level m r h = ap has_due (received details level m r h)

  module _ (later : ℕ) where
    -- The file sink keeps a journal, of the messages that are not below its level.
    abbrev pub file_journal : LogDetailsFunc → Level → Journal (Option FileSink)
    file_journal details level = record {
      log_call = receive env now;
      text = file_text;
      entry = logged env details level;
      due = has_due;
      due-log_call = receive-written details level;
      destructor = shut_down env later;
      IsReady = IsOpen details level;
      log-IsReady = receive-IsOpen details level;
      text-log_call = file_text-receive details level;
    }

    closed_text :
        {details : LogDetailsFunc} {level : Level} {r : Option FileSink}
        (h : IsOpen details level r)
        → has_due r ≡ false
        → file_text r ≡ h.out.written
    closed_text {r} h d =
        let e : h.sink.first_entry ≡ false = sym (ap has_due h.is_sink) ∙ d in
        ap file_text h.is_sink
        ∙ open_text h.sink h.out h.is_open
        ∙ ap (λ b. h.out.written ++ (if b then header env.platform now h.sink.log_header else [])) e
        ∙ append-nil h.out.written

    -- What the destructor leaves of a sink with an open file.
    abbrev left_by_destructor :
        {details : LogDetailsFunc} {level : Level} {r : Option FileSink}
        → IsOpen details level r
        → FileSink
    left_by_destructor h = record (h.sink) {
      outptr = some (record (h.out) { written = h.out.written ++ exit_line env later });
    }

    shut_down-open :
        {details : LogDetailsFunc} {level : Level} {r : Option FileSink}
        (h : IsOpen details level r)
        → shut_down env later r ≡ some (left_by_destructor h)
    unfolding destroy write
    shut_down-open h = ap (shut_down env later) h.is_sink ∙ ground (arith, h.is_open)

    -- In any interleaving: a file sink with an open file is the one sink of a worker, and messages are
    -- saved, then a fatal message, then anything else is asked. When the process has ended, the
    -- file of the sink holds what it held, the header if that was due, the texts of the messages that
    -- are not below the level of the sink, in order and with the fatal message last, and the line of
    -- the destructor on the shutdown. The calls through the handle are those that leave the file, the
    -- level, the format and the header alone.
    pub log_file_at_end :
        {logging : Bool} {state : Active (Job (Option FileSink)) × Worker (Option FileSink)}
        (s : FileSink) (out : Stream) (ms : List LogMessage) (f : FatalMessage)
        (behind : List (Request (Option FileSink))) (by : Level × ℤ)
        → s.outptr ≡ some out
        → Reach env
            (Harmless (file_journal s.log_details_func s.min_log_level))
            logging
            (add_request (some s) (receive env now) (shut_down env later) ∷ map save_request ms
              ++ fatal_request f ∷ behind)
            state
        → state.1.exited ≡ some by
        → (left : FileSink) × (end : Stream) × (state.1.closed ≡ some (some left) ∷ [])
          × (left.outptr ≡ some end)
          × (end.written
              ≡ out.written
                ++ due_header s
                ++ entries
                    (file_journal s.log_details_func s.min_log_level)
                    (ms ++ final_message env f ∷ [])
                ++ exit_line env later)
    log_file_at_end s out ms f behind by e h x =
        let ready : IsOpen s.log_details_func s.min_log_level (some s) = record {
          sink = s;
          out = out;
          is_sink = refl;
          is_open = e;
          has_details = refl;
          has_level = refl;
        } in
        let j = file_journal s.log_details_func s.min_log_level in
        let (r, closed, is_open, none_due, text) =
          text_at_end j env (some s) ms f behind by h x ready in
        let logged_text = entries j (ms ++ final_message env f ∷ []) in
        let written : is_open.out.written ≡ out.written ++ due_header s ++ logged_text =
          sym (closed_text is_open none_due)
          ∙ text
          ∙ ap (λ t. t ++ logged_text) (open_text s out e) in
        (
          left_by_destructor is_open,
          record (is_open.out) { written = is_open.out.written ++ exit_line env later },
          closed ∙ ap (λ x. some x ∷ []) (shut_down-open is_open),
          refl,
          ap (λ t. t ++ exit_line env later) written,
        )
