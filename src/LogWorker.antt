-- ===== src/LogWorker.antt =====
-- src/logworker.cpp and src/g3log/logworker.hpp: the worker that hands messages to its sinks. Its
-- state is what the thread of the worker owns; the calls of its interface send jobs to that thread.
pub mod Fatal
pub mod Lifetime
pub mod Tests
use myg3log.Base.{
  ℕ, ◌+◌, Bool, true, false, List, [], ◌∷◌, ◌++◌, Option, none, some, map, if◌then◌else◌,
}
use myg3log.Base.Int.{ℤ}
use myg3log.Base.Text.{Text, codes}
use myg3log.Base.Decimal.{int_to_string}
use myg3log.Levels.{Level, error, warning, info}
use myg3log.Message.{LogMessage, FatalMessage, to_string, default_log_details}
use myg3log.Message.Build.{append_message, copy, reason}
use myg3log.Active.{Active, Callback, send, destroy, spawn_and_wait}
use myg3log.Sink.{Sink, send_message, destroy_sink}
use myg3log.FileSink.{Environment, FileSink, Construction, aborted, constructed, construct}
use myg3log.Crash.Signals.{exit_text}

-- `struct LogWorkerImpl` with what the thread of the worker can see of the process: the standard
-- error, the real sinks that were left behind, whether a logger is active (`g_logger_instance`),
-- and the signal by which the process ended.
pub record Worker (R : Type 0) : Type 0 where
  pub sinks : List (Sink R)
  pub stderr : Text
  pub closed : List (Option R)
  pub logging : Bool
  pub exited : Option (Level × ℤ)

-- The jobs that the interface sends to the thread.
pub data Job (R : Type 0) : Type 0 where
  save_job : LogMessage → Job R
  fatal_job : FatalMessage → Job R
  add_sink_job : Sink R → Job R
  clear_sinks_job : Job R

-- What `bgFatal` adds to the message.
unfoldable pub exit_note : FatalMessage → Text
exit_note f =
    codes "\nExiting after fatal event  ("
    ++ f.log_message.level.text
    ++ codes "). "
    ++ codes "Fatal type: "
    ++ codes " "
    ++ reason f
    ++ codes "\nLog content flushed sucessfully to sink\n\n"

-- The message with what `bgFatal` adds.
unfoldable pub noted_message : FatalMessage → LogMessage
unfolding exit_note
noted_message f = append_message (exit_note f) f.log_message

module _ (env : Environment) where
  -- The text of a message in the default format.
  unfoldable pub default_text : LogMessage → Text
  default_text m =
      (to_string env.platform env.show_thread (default_log_details env.platform env.show_thread)
        m).1

  -- The message that `bgFatal` sends to the sinks: `toString` has set the function that formats the
  -- details to the default one.
  unfoldable pub final_message : FatalMessage → LogMessage
  unfolding noted_message
  final_message f =
      (to_string env.platform env.show_thread (default_log_details env.platform env.show_thread)
        (noted_message f)).0

module _ {R : Type 0} where
  -- `_sinks.clear()`.
  unfoldable pub clear_sinks : Worker R → Worker R
  clear_sinks w = record w { sinks = []; closed = w.closed ++ map destroy_sink w.sinks }

  -- `exitWithDefaultSignalHandler(level, fatal_signal_id)`, seen from the worker: a line on the
  -- standard error and the end of the process.
  unfoldable pub exit_by : Level → ℤ → Worker R → Worker R
  exit_by level fatal_id w = record w {
    stderr = w.stderr ++ exit_text level fatal_id;
    exited = some (level, fatal_id);
  }

  -- `LogWorker::save(msg)` and `LogWorker::fatal(fatal_message)`.
  unfoldable pub save : LogMessage → Active (Job R) → Active (Job R)
  unfolding send
  save msg bg = send (Callback.call (save_job msg)) bg

  unfoldable pub fatal : FatalMessage → Active (Job R) → Active (Job R)
  unfolding send
  fatal f bg = send (Callback.call (fatal_job f)) bg

  -- What other threads send while the destructor is between its two waits.
  unfoldable pub send_late : List (Job R) → Active (Job R) → Active (Job R)
  unfolding send
  send_late [] bg = bg
  send_late (j ∷ js) bg = send_late js (send (Callback.call j) bg)

-- What a call that makes file sinks leads to: an abort of the process, or the worker afterwards.
pub data Adding (R : Type 0) : Type 0 where
  aborts : Adding R
  returns : Active (Job R) × Worker R → Adding R

abbrev pub then_add :
    {R : Type 0}
    → Option (Adding R)
    → (Active (Job R) × Worker R → Option (Adding R))
    → Option (Adding R)
then_add none next = none
then_add (some aborts) next = some aborts
then_add (some (returns bg)) next = next bg

module _ (env : Environment) {R : Type 0} where
  -- `LogWorkerImpl::bgSave(msgPtr)`.
  unfoldable pub bg_save : LogMessage → Worker R → Worker R
  bg_save msg w =
      let sent = map (send_message (copy msg)) w.sinks in
      elim w.sinks [
        | [] ↦ record w {
          stderr =
              w.stderr
              ++ (codes "g3logworker has no sinks. Message: ["
                  ++ default_text env msg
                  ++ codes "]\n");
        }
        | sink ∷ sinks ↦ record w { sinks = sent }
      ]

  -- `LogWorkerImpl::bgFatal(msgPtr)`.
  unfoldable pub bg_fatal : FatalMessage → Worker R → Worker R
  unfolding clear_sinks exit_by
  bg_fatal f w = exit_by f.log_message.level f.signal_id (
      clear_sinks (record w {
        logging = false;
        stderr = w.stderr ++ default_text env (noted_message f);
        sinks = map (send_message (copy (final_message env f))) w.sinks;
      }))

  -- What the thread does with a job; once the process has ended it does nothing.
  unfoldable pub perform_live : Job R → Worker R → Worker R
  unfolding bg_save bg_fatal clear_sinks
  perform_live (save_job msg) w = bg_save msg w
  perform_live (fatal_job f) w = bg_fatal f w
  perform_live (add_sink_job sink) w = record w { sinks = w.sinks ++ sink ∷ [] }
  perform_live clear_sinks_job w = clear_sinks w

  unfoldable pub perform_job : Job R → Worker R → Worker R
  unfolding perform_live
  perform_job j w = elim w.exited [ none ↦ perform_live j w | some by ↦ w ]

  -- `addWrappedSink(sink)`, which waits until the thread has added the sink. `addSink` is this
  -- call for a new sink, and gives a handle to it.
  unfoldable pub add_wrapped_sink :
      Sink R → Active (Job R) × Worker R → Option (Active (Job R) × Worker R)
  unfolding spawn_and_wait
  add_wrapped_sink sink now = spawn_and_wait perform_job (add_sink_job sink) now

  -- `addDefaultLogger(log_prefix, log_directory)`, at a time, with the flag `log_link`; `file_sink`
  -- is the sink for a file sink and its `fileWrite`. The constructor of a file sink may abort. The
  -- handle is that of the last sink.
  module _ (now : ℕ) (log_link : Text) (file_sink : FileSink → Sink R)
      (log_prefix log_directory : Text) where
    unfoldable pub add_file_sink : Level → Active (Job R) × Worker R → Option (Adding R)
    unfolding construct add_wrapped_sink
    add_file_sink level bg = elim (construct env now log_link log_prefix log_directory level []) [
      | aborted ↦ some aborts
      | constructed s links ↦ elim (add_wrapped_sink (file_sink s) bg) [
        | none ↦ none
        | some bg' ↦ some (returns bg')
      ]
    ]

    unfoldable pub add_default_logger : Active (Job R) × Worker R → Option (Adding R)
    unfolding add_file_sink
    add_default_logger bg =
        then_add (then_add (add_file_sink error bg) (add_file_sink warning)) (add_file_sink info)

  -- The destructor behind its call of `shutDownLoggingForActiveOnly`: it waits until the thread has
  -- cleared the sinks, and then destroys the thread.
  unfoldable pub destroy_worker :
      List (Job R) → Active (Job R) × Worker R → Option (Active (Job R) × Worker R)
  destroy_worker late now = elim (spawn_and_wait perform_job clear_sinks_job now) [
    | none ↦ none
    | some (bg, w) ↦ destroy perform_job (send_late late bg, w)
  ]
