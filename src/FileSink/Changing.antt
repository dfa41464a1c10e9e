-- ===== src/FileSink/Changing.antt =====
-- What a change of the log file leaves in the old file and in the new one.
use myg3log.Base.{
  ℕ, ◌≡◌, refl, arith, true, false, List, [], ◌∷◌, ◌++◌, Option, none, some, append-nil,
  if◌then◌else◌,
}
use myg3log.Base.Text.{Text}
use myg3log.Levels.{Level}
use myg3log.FileName.{header}
use myg3log.Message.{LogMessage}
use myg3log.FileSink.{
  Environment, Stream, FileSink, Change, change_log_file, prospect_log, failure_note, leaving_note,
  arrival_note, ◌>>=◌,
}
use myg3log.FileSink.Writing.{write_all, write_all_lem, all_logged}

-- The text in the file that the sink writes to.
abbrev pub written : FileSink → Option Text
written s = elim s.outptr [ none ↦ none | some out ↦ some out.written ]

-- A sink whose header is written adds the entries to its file, and nothing else.
written_after :
    (env : Environment) (ms : List (ℕ × LogMessage)) (s : FileSink) (out : Stream)
    → s.outptr ≡ some out
    → s.first_entry ≡ false
    → (write_all env ms s >>= written)
      ≡ some (out.written ++ all_logged env s.log_details_func s.min_log_level ms)
written_after env [] s out e old =
    rw (write_all_lem env [] s out e) (ground (arith, append-nil out.written))
written_after env (m ∷ ms) s out e old = rw (write_all_lem env (m ∷ ms) s out e, old)

module _ (env : Environment) (now now_name now_header : ℕ) (directory logger_id : Text)
    (level : Level) (s : FileSink) (out : Stream) (opened : s.outptr ≡ some out) where
  abbrev pub prospect : Text
  prospect = prospect_log env now_name directory logger_id level s

  -- The sink, the result and the closed stream after a change to the file `prospect`.
  abbrev pub changed : Change
  changed = record {
    sink = record s {
      log_file_with_path = prospect;
      outptr =
          some
            (record { path = prospect; written = [] ++ arrival_note env now s.log_file_with_path });
    };
    result = prospect;
    closed =
        record out {
          written =
              (out.written ++ header env.platform now_header s.log_header)
              ++ leaving_note env now s.log_file_with_path prospect;
        }
        ∷ [];
  }

  abbrev pub unchanged : Change
  unchanged = record {
    sink = record s {
      outptr = some (record out { written = out.written ++ failure_note env now prospect });
    };
    result = [];
    closed = [];
  }

  -- For a sink with an open file: if the new file can be opened, the old one ends in a header and a
  -- note, the new one begins with a note, and the new path is returned; if not, the sink goes on
  -- with the old file, which gets a note, and the empty path is returned.
  pub change_log_file_lem :
      change_log_file env now now_name now_header directory logger_id level s
      ≡ some (if env.openable prospect then changed else unchanged)
  unfolding change_log_file
  change_log_file_lem = ground arith

  -- Where a sink with an open file has written its header before, and the new file can be opened,
  -- the file that it changes to gets no header, whatever is written to it: it holds the note on the
  -- change and the entries.
  pub change-write_all :
      (ms : List (ℕ × LogMessage))
      → s.first_entry ≡ false
      → env.openable prospect ≡ true
      → ((change_log_file env now now_name now_header directory logger_id level s)
          >>= (λ c. write_all env ms c.sink >>= written))
        ≡ some (
            arrival_note env now s.log_file_with_path
            ++ all_logged env s.log_details_func s.min_log_level ms)
  change-write_all ms old o =
      rw (change_log_file_lem, o)
        (written_after env ms changed.sink
          (record { path = prospect; written = [] ++ arrival_note env now s.log_file_with_path })
          refl old)
