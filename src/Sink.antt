-- ===== src/Sink.antt =====
-- src/g3log/sink.hpp, sinkwrapper.hpp and sinkhandle.hpp: a real sink of type `R` with a thread of
-- its own, which runs the log entries and the calls that it is sent.
pub mod Delivery
use myg3log.Base.{ℕ, ◌+◌, Bool, true, false, List, [], ◌∷◌, ◌++◌, Option, none, some}
use myg3log.Base.Text.{Text, codes}
use myg3log.Message.{LogMessage, LogDetailsFunc, to_string}
use myg3log.Active.{Active, Callback, Future, create_active, send, spawn_task, destroy}

-- What a sink's thread is sent: an entry, or a call of the real sink's interface.
pub data SinkJob (R : Type 0) : Type 0 where
  deliver : LogMessage → SinkJob R
  invoke : (R → R) → SinkJob R

-- `struct Sink<T>`; `default_log_call` is what the real sink makes of an entry, and `destructor` is
-- that of its type.
pub record Sink (R : Type 0) : Type 0 where
  pub real_sink : R
  pub bg : Active (SinkJob R)
  pub default_log_call : LogMessage → R → R
  pub destructor : R → R

module _ {R : Type 0} where
  -- The constructor for a call that takes the message.
  unfoldable pub create_sink : R → (LogMessage → R → R) → (R → R) → Sink R
  unfolding create_active
  create_sink sink call destructor = record {
    real_sink = sink;
    bg = create_active;
    default_log_call = call;
    destructor = destructor;
  }

  -- The constructor for a call that takes the text of the message, in its default format.
  unfoldable pub create_text_sink : (LogMessage → Text) → R → (Text → R → R) → (R → R) → Sink R
  unfolding create_active
  create_text_sink default_to_string sink call destructor = record {
    real_sink = sink;
    bg = create_active;
    default_log_call = λ m. call (default_to_string m);
    destructor = destructor;
  }

  -- `send(msg)`.
  unfoldable pub send_message : LogMessage → Sink R → Sink R
  unfolding send
  send_message msg s = record s { bg = send (Callback.call (SinkJob.deliver msg)) s.bg }

  -- `async(call, args)`.
  unfoldable pub async :
      {Result : Type 0} → (R → R) → Sink R → Option (Active (SinkJob R)) × Future Result
  unfolding spawn_task
  async call s = spawn_task (SinkJob.invoke call) (some s.bg)

  -- What a job does to the real sink.
  unfoldable pub perform_job : (LogMessage → R → R) → SinkJob R → R → R
  perform_job log_call (SinkJob.deliver msg) r = log_call msg r
  perform_job log_call (SinkJob.invoke call) r = call r

  -- The destructor: it ends the thread, and then destroys the real sink, as its type does. What that
  -- leaves is kept; `none` means that the thread is not joined.
  unfoldable pub destroy_sink : Sink R → Option R
  destroy_sink s = elim (destroy (perform_job s.default_log_call) (s.bg, s.real_sink)) [
    | none ↦ none
    | some (a, r) ↦ some (s.destructor r)
  ]

  -- `SinkHandle::call(func, args)`: the handle holds a weak pointer, `none` once the sink is gone.
  unfoldable pub handle_call :
      {Result : Type 0} → (R → R) → Option (Sink R) → Option (Sink R) × Future Result
  handle_call func none = (none, Future.exception (codes "bad_weak_ptr"))
  handle_call func (some sink) =
      let (worker, future) = async func sink in
      (some (record sink { bg = elim worker [ none ↦ sink.bg | some a ↦ a ] }), future)
