-- ===== src/FileSink/Writing.antt =====
-- What a sequence of messages leaves in the log file.
use myg3log.Base.{
  ℕ, ◌≡◌, refl, ◌∙◌, ap, arith, false, List, [], ◌∷◌, ◌++◌, Option, some, if◌then◌else◌,
  append_assoc, append-nil,
}
use myg3log.Base.Int.{ltb_ℤ}
use myg3log.Base.Text.{Text}
use myg3log.FileName.{header}
use myg3log.Levels.{Level}
use myg3log.Message.{LogMessage, LogDetailsFunc, to_string}
use myg3log.FileSink.{Environment, Stream, FileSink, file_write, ◌>>=◌}

module _ (env : Environment) where
  -- The messages that a sink is sent, each with the time at which it is written.
  unfoldable pub write_all : List (ℕ × LogMessage) → FileSink → Option FileSink
  write_all [] s = some s
  write_all ((now, m) ∷ ms) s = file_write env now m s >>= write_all ms

  -- The reference: what one message adds to the file.
  abbrev pub logged : LogDetailsFunc → Level → LogMessage → Text
  logged details min_level m =
      if ltb_ℤ m.level.value min_level.value
      then []
      else (to_string env.platform env.show_thread details m).1

  abbrev pub all_logged : LogDetailsFunc → Level → List (ℕ × LogMessage) → Text
  all_logged details min_level [] = []
  all_logged details min_level ((now, m) ∷ ms) =
      logged details min_level m ++ all_logged details min_level ms

  abbrev pub first_header : FileSink → List (ℕ × LogMessage) → Text
  first_header s [] = []
  first_header s ((now, m) ∷ ms) =
      if s.first_entry then header env.platform now s.log_header else []

  -- The sink after the messages: only the file has grown, and the header is due no more.
  abbrev pub after_writing : FileSink → Stream → List (ℕ × LogMessage) → FileSink
  after_writing s out [] = s
  after_writing s out (m ∷ ms) = record s {
    outptr = some (record out {
      written =
          out.written
          ++ (first_header s (m ∷ ms) ++ all_logged s.log_details_func s.min_log_level (m ∷ ms));
    });
    first_entry = false;
  }

  pub file_write_lem :
      (now : ℕ) (m : LogMessage) (s : FileSink) (out : Stream)
      → s.outptr ≡ some out
      → file_write env now m s
        ≡ some (record s {
          outptr = some (record out {
            written =
                out.written
                ++ (first_header s ((now, m) ∷ []) ++ logged s.log_details_func s.min_log_level m);
          });
          first_entry = false;
        })
  unfolding file_write
  file_write_lem now m s out e = ground (
    arith,
    append-nil out.written,
    append-nil (header env.platform now s.log_header),
    append_assoc out.written (header env.platform now s.log_header)
        (logged s.log_details_func s.min_log_level m),
  )

  -- By a sink with an open file every message is written, in order, unless its level is below that
  -- of the sink, and the header stands before the first of them, whether that one is written or
  -- not; nothing else is written.
  pub write_all_lem :
      (ms : List (ℕ × LogMessage)) (s : FileSink) (out : Stream)
      → s.outptr ≡ some out
      → write_all ms s ≡ some (after_writing s out ms)
  unfolding write_all
  write_all_lem [] s out e = refl
  write_all_lem ((now, m) ∷ []) s out e = ground (
    arith,
    file_write_lem now m s out e,
    append-nil (logged s.log_details_func s.min_log_level m),
  )
  write_all_lem ((now, m) ∷ n ∷ ms) s out e =
      let head = first_header s ((now, m) ∷ []) in
      let text = logged s.log_details_func s.min_log_level m in
      let grown : Stream = record out { written = out.written ++ (head ++ text) } in
      let s' : FileSink = record s { outptr = some grown; first_entry = false } in
      let rest = all_logged s.log_details_func s.min_log_level (n ∷ ms) in
      rw (file_write_lem now m s out e) (
        write_all_lem (n ∷ ms) s' grown refl
        ∙ ap (λ t. some (record s' { outptr = some (record out { written = t }) }))
            (append_assoc out.written (head ++ text) rest
              ∙ ap (◌++◌ out.written) (append_assoc head text rest)))
