-- ===== src/TestHelpers/Retrieve.antt =====
-- What a test retrieves from its log file.
use myg3log.Base.{
  ℕ, ◌≡◌, refl, sym, ◌∙◌, ap, arith, List, [], ◌∷◌, ◌++◌, Option, none, some, Option-cases, inl,
  inr, map, append-nil,
}
use myg3log.Base.Text.{Text, c_str, equal_text_same}
use myg3log.Message.{LogMessage}
use myg3log.Active.Draining.{waiting, spawn_and_wait_lem}
use myg3log.Sink.{SinkJob, perform_job}
use myg3log.Sink.Delivery.{LiveSink, live, log_all}
use myg3log.FileSink.{Environment, Stream, FileSink, file_write, file_name, write, destroy}
use myg3log.FileSink.Writing.{write_all, write_all_lem, after_writing, first_header, all_logged}
use myg3log.LogWorker.{Worker, save_job}
use myg3log.LogWorker.Fatal.{Has, outcome}
use myg3log.LogWorker.Lifetime.{destroy_worker_lem}
use myg3log.Pipeline.LogFile.{receive, shut_down, exit_line}
use myg3log.TestHelpers.{read_file_to_text}
use myg3log.TestHelpers.Restore.{call_file_name, file_left, files_left, reset_and_retrieve_content}

-- The file of a sink that was destroyed.
file_at_end :
    (env : Environment) (later : ℕ) (s : FileSink) (out : Stream)
    → s.outptr ≡ some out
    → file_left (some (shut_down env later (some s)))
      ≡ (out.path, out.written ++ exit_line env later) ∷ []
unfolding file_left write destroy
file_at_end env later s out e = ground (arith, e)

module _ (env : Environment) (now later : ℕ) where
  -- The sink of a test: its thread waits, and its real sink is open.
  abbrev pub file_sink_at : FileSink → LiveSink (Option FileSink)
  file_sink_at s = record {
    real = some s;
    pending = [];
    log_call = receive env now;
    destructor = shut_down env later;
  }

  -- The messages with the time of the header.
  abbrev pub timed : List LogMessage → List (ℕ × LogMessage)
  timed [] = []
  timed (m ∷ ms) = (now, m) ∷ timed ms

  received_all :
      (ms : List LogMessage) (s : FileSink)
      → log_all (receive env now) ms (some s) ≡ write_all env (timed ms) s
  unfolding write_all
  received_all [] s = refl
  received_all (m ∷ ms) s = elim (Option-cases (file_write env now m s)) [
    | inl e ↦ rw e (log_none ms)
    | inr (s', e) ↦ rw e (received_all ms s')
  ]
    where
      log_none : (ms : List LogMessage) → log_all (receive env now) ms none ≡ none
      log_none [] = refl
      log_none (m ∷ ms) = log_none ms

  -- All that a sink writes for messages.
  abbrev pub all_text : FileSink → List LogMessage → Text
  all_text s ms =
      first_header env s (timed ms) ++ all_logged env s.log_details_func s.min_log_level (timed ms)

  written_stream :
      (ms : List LogMessage) (s : FileSink) (out : Stream)
      → s.outptr ≡ some out
      → (after_writing env s out (timed ms)).outptr
        ≡ some (record out { written = out.written ++ all_text s ms })
  written_stream [] s out e =
      e ∙ ap (λ t. some (record out { written = t })) (sym (append-nil out.written))
  written_stream (m ∷ ms) s out e = refl

  named :
      (s : FileSink)
      → call_file_name (live (file_sink_at s)) ≡ some (file_name s, live (file_sink_at s))
  unfolding call_file_name perform_job
  named s =
      rw
        (
          spawn_and_wait_lem (perform_job (receive env now)) [] (SinkJob.invoke (λ r. r)) (some s),
          call_file_name,
        )
        refl

  retrieved :
      (ms : List LogMessage) (s : FileSink) (out : Stream)
      → s.outptr ≡ some out
      → s.log_file_with_path ≡ out.path
      → c_str out.path ≡ out.path
      → read_file_to_text (file_name s) (files_left (map (outcome ms) (file_sink_at s ∷ [])))
        ≡ out.written ++ all_text s ms ++ exit_line env later
  unfolding read_file_to_text files_left file_name
  retrieved ms s out e p n =
      let left : file_left (outcome ms (file_sink_at s))
          ≡ (out.path, (out.written ++ all_text s ms) ++ exit_line env later) ∷ [] =
        ap (λ r. file_left (some (shut_down env later r)))
          (received_all ms s ∙ write_all_lem env (timed ms) s out e)
        ∙ file_at_end env later (after_writing env s out (timed ms)) _
            (written_stream ms s out e) in
      let found : read_file_to_text (file_name s)
            ((out.path, (out.written ++ all_text s ms) ++ exit_line env later) ∷ [])
          ≡ out.written ++ all_text s ms ++ exit_line env later =
        ground (arith, p, n, equal_text_same out.path) in
      ap (λ files. read_file_to_text (file_name s) (files ++ [])) left ∙ found

  -- A test whose file sink has an open file, at a path without a NUL, that no message was delivered
  -- to yet: what `resetAndRetrieveContent` returns is what the file held, the header if it was due,
  -- the texts of all messages that were logged before and that are not below the level of the sink,
  -- in order, and the last line of the sink. Every queue is flushed on the way.
  pub reset_and_retrieve_content_lem :
      (ms : List LogMessage) (s : FileSink) (out : Stream) (w : Worker (Option FileSink))
      → s.outptr ≡ some out
      → s.log_file_with_path ≡ out.path
      → c_str out.path ≡ out.path
      → Has (file_sink_at s ∷ []) [] w
      → reset_and_retrieve_content env (waiting (map save_job ms), w)
        ≡ some (out.written ++ all_text s ms ++ exit_line env later)
  unfolding reset_and_retrieve_content
  reset_and_retrieve_content_lem ms s out w e p n h =
      let w1 : Worker (Option FileSink) = record w { sinks = live (file_sink_at s) ∷ [] } in
      let h1 : Has (file_sink_at s ∷ []) [] w1 = record {
        sinks = refl;
        closed_before = h.closed_before;
        running = h.running;
      } in
      let (w', gone, no_sinks, closed, notes) =
        destroy_worker_lem env ms [] (file_sink_at s ∷ []) [] w1 h1 in
      let read : reset_and_retrieve_content env (waiting (map save_job ms), w)
          ≡ some (read_file_to_text (file_name s) (files_left w'.closed)) =
        ground (arith, h.sinks, named s, gone) in
      read
      ∙ ap (λ c. some (read_file_to_text (file_name s) (files_left c))) closed
      ∙ ap some (retrieved ms s out e p n)
