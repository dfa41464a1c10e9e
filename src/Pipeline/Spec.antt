-- ===== src/Pipeline/Spec.antt =====
-- What a worker promises, with no thread and no queue: who has got which messages after requests
-- that are served one after the other.
use myg3log.Base.{◌≡◌, List, [], ◌∷◌, ◌++◌, Option, none, some, map, All, Pointwise}
use myg3log.Base.Int.{ℤ}
use myg3log.Levels.{Level}
use myg3log.Message.{LogMessage}
use myg3log.Active.Draining.{run_jobs}
use myg3log.Sink.{Sink, SinkJob, perform_job}
use myg3log.Sink.Delivery.{live}
use myg3log.FileSink.{Environment}
use myg3log.LogWorker.{Worker, final_message}
use myg3log.Pipeline.{
  Request, save_request, fatal_request, add_request, clear_request, done_request,
}

-- A real sink as it was added, its log call and its destructor, and the messages that it has to log.
pub record Subscription (R : Type 0) : Type 0 where
  pub first : R
  pub log_call : LogMessage → R → R
  pub destructor : R → R
  pub got : List LogMessage

pub record Account (R : Type 0) : Type 0 where
  pub subscribed : List (Subscription R)
  pub left : List (Subscription R)
  pub ended : Option (Level × ℤ)

module _ {R : Type 0} where
  abbrev pub no_account : Account R
  no_account = record { subscribed = []; left = []; ended = none }

  abbrev pub give : LogMessage → Subscription R → Subscription R
  give m s = record s { got = s.got ++ m ∷ [] }

  -- The messages among the jobs of a sink.
  abbrev pub messages_of : List (SinkJob R) → List LogMessage
  messages_of [] = []
  messages_of (SinkJob.deliver m ∷ js) = m ∷ messages_of js
  messages_of (SinkJob.invoke call ∷ js) = messages_of js

module _ (env : Environment) {R : Type 0} where
  -- A request in a process that has not ended.
  abbrev pub serve_live : Request R → Account R → Account R
  serve_live (save_request m) a = record a { subscribed = map (give m) a.subscribed }
  serve_live (fatal_request f) a = record {
    subscribed = [];
    left = a.left ++ map (give (final_message env f)) a.subscribed;
    ended = some (f.log_message.level, f.signal_id);
  }
  serve_live (add_request real call destructor) a = record a {
    subscribed =
        a.subscribed
        ++ record { first = real; log_call = call; destructor = destructor; got = [] } ∷ [];
  }
  serve_live clear_request a = record a { subscribed = []; left = a.left ++ a.subscribed }
  serve_live done_request a = a

  abbrev pub serve : Request R → Account R → Account R
  serve r a = elim a.ended [ none ↦ serve_live r a | some by ↦ a ]

  abbrev pub serve_all : List (Request R) → Account R → Account R
  serve_all [] a = a
  serve_all (r ∷ rs) a = serve_all rs (serve r a)

module _ {R : Type 0} (Allowed : (R → R) → Type 0) where
  -- A job that is an entry, or one of the calls that the users of the handles make.
  abbrev pub IsAllowed : SinkJob R → Type 0
  IsAllowed (SinkJob.deliver m) = Unit
  IsAllowed (SinkJob.invoke call) = Allowed call

  -- A live sink that serves a subscription: the jobs that its real sink has done and those that are
  -- pending hold exactly the messages that it has to log, in order.
  pub record Tracks (s : Subscription R) (sink : Sink R) : Type 0 where
    pub executed : List (SinkJob R)
    pub pending : List (SinkJob R)
    pub is_live :
        sink
        ≡ live (record {
          real = run_jobs (perform_job s.log_call) executed s.first;
          pending = pending;
          log_call = s.log_call;
          destructor = s.destructor;
        })
    pub messages : messages_of (executed ++ pending) ≡ s.got
    pub allowed : All IsAllowed (executed ++ pending)

  -- A real sink whose sink is gone: nothing was pending when it was destroyed.
  pub record Served (s : Subscription R) (real : Option R) : Type 0 where
    pub executed : List (SinkJob R)
    pub is_done : real ≡ some (s.destructor (run_jobs (perform_job s.log_call) executed s.first))
    pub messages : messages_of executed ≡ s.got
    pub allowed : All IsAllowed executed

  pub record Refines (a : Account R) (w : Worker R) : Type 0 where
    pub subscribed : Pointwise Tracks a.subscribed w.sinks
    pub left : Pointwise Served a.left w.closed
    pub ended : w.exited ≡ a.ended
