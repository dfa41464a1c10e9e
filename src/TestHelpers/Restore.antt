-- ===== src/TestHelpers/Restore.antt =====
-- src/test_unit/testing_helpers.cpp: the logger of a test, which writes to a file and gives back what
-- was logged.
use myg3log.Base.{ℕ, Bool, true, List, [], ◌∷◌, ◌++◌, Option, none, some, if◌then◌else◌}
use myg3log.Base.Text.{Text}
use myg3log.Levels.{LogLevels, add_log_level, info, debug, warning, fatal}
use myg3log.Active.{Active, spawn_and_wait}
use myg3log.Sink.{Sink, SinkJob, create_sink, perform_job}
use myg3log.FileSink.{Environment, FileSink, file_name}
use myg3log.LogWorker.{Worker, Job, add_wrapped_sink, destroy_worker}
use myg3log.Logger.{
  Logger, Build, initialize_logging, set_fatal_exit_handler, shut_down_logging, put,
}
use myg3log.Pipeline.LogFile.{receive, shut_down}
use myg3log.TestHelpers.{Mock, Files, clear_mock_fatal, read_file_to_text, remove_file}

-- What a test has: the worker of the logger, the logging system and the mock.
pub record Restored : Type 0 where
  pub worker : Worker (Option FileSink)
  pub logger : Logger (Option FileSink)
  pub mock : Mock

-- The levels that the constructor adds.
unfoldable pub add_levels : LogLevels → LogLevels
unfolding add_log_level
add_levels levels =
    add_log_level fatal true
      (add_log_level warning true (add_log_level debug true (add_log_level info true levels)))

-- `RestoreFileLogger(directory)` up to the call for the name of the file, for the worker `w` and a
-- file sink that was made for the directory; the mock is the handler with the number given.
unfoldable pub restore_file_logger :
    (build : Build) (now later w mock_id : ℕ)
    → FileSink
    → Worker (Option FileSink)
    → Logger (Option FileSink)
    → Option Restored
unfolding add_wrapped_sink create_sink initialize_logging set_fatal_exit_handler clear_mock_fatal
    add_levels
restore_file_logger build now later w mock_id real worker s =
    elim (add_wrapped_sink build.env
      (create_sink (some real) (receive build.env now) (shut_down build.env later))
      (s.workers w, worker)) [
        | none ↦ none
        | some (bg, worker') ↦
            let s1 =
              initialize_logging build (some w) (record s { workers = put s.workers w bg }) in
            let s2 = set_fatal_exit_handler (some mock_id) s1 in
            some (record {
              worker = worker';
              logger =
                  if build.dynamic_levels then record s2 { levels = add_levels s2.levels } else s2;
              mock = clear_mock_fatal;
            })
      ]

-- `_handle->call(&FileSink::fileName)` and the wait for its result: the thread of the sink has come
-- to the call. A sink that has written through a null pointer has no name.
unfoldable pub call_file_name : Sink (Option FileSink) → Option (Text × Sink (Option FileSink))
unfolding spawn_and_wait file_name
call_file_name s =
    elim (spawn_and_wait (perform_job s.default_log_call) (SinkJob.invoke (λ r. r))
      (s.bg, s.real_sink)) [
        | none ↦ none
        | some (bg, real) ↦ elim real [
          | none ↦ none
          | some sink ↦ some (file_name sink, record s { bg = bg; real_sink = some sink })
        ]
      ]

-- The file of a real sink, behind its destructor.
unfoldable pub file_left : Option (Option FileSink) → Files
file_left none = []
file_left (some none) = []
file_left (some (some sink)) = elim sink.outptr [
  | none ↦ []
  | some out ↦ (out.path, out.written) ∷ []
]

unfoldable pub files_left : List (Option (Option FileSink)) → Files
unfolding file_left
files_left [] = []
files_left (real ∷ reals) = file_left real ++ files_left reals

-- `resetAndRetrieveContent()`, for a worker with the one sink that the handle stands for.
unfoldable pub reset_and_retrieve_content :
    Environment → Active (Job (Option FileSink)) × Worker (Option FileSink) → Option Text
unfolding call_file_name destroy_worker files_left read_file_to_text
reset_and_retrieve_content env (bg, w) = elim w.sinks [
  | [] ↦ none
  | sink ∷ sinks ↦ elim (call_file_name sink) [
    | none ↦ none
    | some (file, sink') ↦ elim (destroy_worker env [] (bg, record w { sinks = sink' ∷ sinks })) [
      | none ↦ none
      | some (bg', w') ↦ some (read_file_to_text file (files_left w'.closed))
    ]
  ]
]

-- `~RestoreFileLogger()` for the file that `_log_file` names: whether it was removed, the files left,
-- and the logging system.
unfoldable pub close_file_logger :
    Environment
    → (log_file : Text) → Active (Job (Option FileSink)) × Worker (Option FileSink)
    → Logger (Option FileSink)
    → Option (Bool × Files × Logger (Option FileSink))
unfolding destroy_worker files_left remove_file shut_down_logging
close_file_logger env log_file (bg, w) s = elim (destroy_worker env [] (bg, w)) [
  | none ↦ none
  | some (bg', w') ↦
      let (removed, left) = remove_file log_file (files_left w'.closed) in
      some (removed, left, shut_down_logging s)
]
