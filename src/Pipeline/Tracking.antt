-- ===== src/Pipeline/Tracking.antt =====
-- A sink that serves a subscription goes on serving it, whatever is done with it.
use myg3log.Base.{
  ◌≡◌, refl, sym, ◌∙◌, ap, ap₂, subst, false, List, [], ◌∷◌, ◌++◌, some, append_assoc, append-nil,
  All, All-append,
}
use myg3log.Message.{LogMessage}
use myg3log.Message.Build.{copy}
use myg3log.Active.{Active, Callback, Future, send, round, perform, spawn_task}
use myg3log.Active.Queue.{push, wait_and_pop}
use myg3log.Active.Draining.{run_jobs, run_jobs-append, waiting, map-sent}
use myg3log.Sink.{
  Sink, SinkJob, create_sink, send_message, destroy_sink, perform_job, handle_call, async,
}
use myg3log.Sink.Delivery.{LiveSink, send_message-live, destroy_sink-live}
use myg3log.Pipeline.Spec.{Subscription, give, messages_of, Tracks, Served, IsAllowed}

module _ {R : Type 0} where
  pub messages_of-append :
      (js ks : List (SinkJob R)) → messages_of (js ++ ks) ≡ messages_of js ++ messages_of ks
  messages_of-append [] ks = refl
  messages_of-append (SinkJob.deliver m ∷ js) ks = ap (◌∷◌ m) (messages_of-append js ks)
  messages_of-append (SinkJob.invoke f ∷ js) ks = messages_of-append js ks

  abbrev live_at : Subscription R → (executed pending : List (SinkJob R)) → LiveSink R
  live_at s ex pending = record {
    real = run_jobs (perform_job s.log_call) ex s.first;
    pending = pending;
    log_call = s.log_call;
    destructor = s.destructor;
  }

  -- A job more at the end of the queue.
  pub messages_more :
      (s : Subscription R) (ex pending : List (SinkJob R)) (j : SinkJob R)
      → messages_of (ex ++ pending) ≡ s.got
      → messages_of (ex ++ (pending ++ j ∷ [])) ≡ s.got ++ messages_of (j ∷ [])
  messages_more s ex pending j e =
      ap messages_of (sym (append_assoc ex pending (j ∷ [])))
      ∙ messages_of-append (ex ++ pending) (j ∷ [])
      ∙ ap (λ l. l ++ messages_of (j ∷ [])) e

  abbrev called_sink : (R → R) → Sink R → Sink R
  called_sink func k = record k {
    bg = record (k.bg) { mq = k.bg.mq ++ Callback.call (SinkJob.invoke func) ∷ [] };
  }

module _ {R : Type 0} (Allowed : (R → R) → Type 0) where
  IsAllowed-more :
      (ex pending : List (SinkJob R)) (j : SinkJob R)
      → All (IsAllowed Allowed) (ex ++ pending)
      → IsAllowed Allowed j
      → All (IsAllowed Allowed) (ex ++ (pending ++ j ∷ []))
  IsAllowed-more ex pending j h hj =
      subst (All (IsAllowed Allowed)) (append_assoc ex pending (j ∷ []))
        (All-append (IsAllowed Allowed) (ex ++ pending) (j ∷ []) h (hj, tt))

  pub Tracks-give :
      (m : LogMessage) (s : Subscription R) (k : Sink R)
      → Tracks Allowed s k
      → Tracks Allowed (give m s) (send_message (copy m) k)
  unfolding copy
  Tracks-give m s k t = record {
    executed = t.executed;
    pending = t.pending ++ SinkJob.deliver m ∷ [];
    is_live =
        ap (send_message (copy m)) t.is_live ∙ send_message-live m (live_at s t.executed t.pending);
    messages = messages_more s t.executed t.pending (SinkJob.deliver m) t.messages;
    allowed = IsAllowed-more t.executed t.pending (SinkJob.deliver m) t.allowed tt;
  }

  pub Served-destroy :
      (s : Subscription R) (k : Sink R) → Tracks Allowed s k → Served Allowed s (destroy_sink k)
  Served-destroy s k t = record {
    executed = t.executed ++ t.pending;
    is_done =
        ap destroy_sink t.is_live
        ∙ destroy_sink-live (live_at s t.executed t.pending)
        ∙ ap (λ r. some (s.destructor r))
            (sym (run_jobs-append (perform_job s.log_call) t.executed t.pending s.first));
    messages = t.messages;
    allowed = t.allowed;
  }

  pub Tracks-create :
      (real : R) (call : LogMessage → R → R) (destructor : R → R)
      → Tracks Allowed
          (record { first = real; log_call = call; destructor = destructor; got = [] })
          (create_sink real call destructor)
  unfolding create_sink
  Tracks-create real call destructor = record {
    executed = [];
    pending = [];
    is_live = refl;
    messages = refl;
    allowed = tt;
  }

  pub sink_round :
      (s : Subscription R) (ex pending : List (SinkJob R)) (bg : Active (SinkJob R)) (real : R)
      → round
          (perform_job s.log_call)
          (waiting pending, run_jobs (perform_job s.log_call) ex s.first)
        ≡ some (bg, real)
      → messages_of (ex ++ pending) ≡ s.got
      → All (IsAllowed Allowed) (ex ++ pending)
      → Tracks Allowed s (record {
        real_sink = real;
        bg = bg;
        default_log_call = s.log_call;
        destructor = s.destructor;
      })
  unfolding round wait_and_pop perform
  sink_round s ex [] bg real e m allowed = absurd cc
  sink_round s ex (j ∷ js) bg real e m allowed =
      let queue : waiting js ≡ bg = cc in
      let after : perform_job s.log_call j (run_jobs (perform_job s.log_call) ex s.first) ≡ real =
        cc in
      record {
        executed = ex ++ j ∷ [];
        pending = js;
        is_live =
            ap₂
              (λ b r. record {
                real_sink = r;
                bg = b;
                default_log_call = s.log_call;
                destructor = s.destructor;
              })
              (sym queue)
              (sym after ∙ sym (run_jobs-append (perform_job s.log_call) ex (j ∷ []) s.first));
        messages = ap messages_of (append_assoc ex (j ∷ []) js) ∙ m;
        allowed = subst (All (IsAllowed Allowed)) (sym (append_assoc ex (j ∷ []) js)) allowed;
      }

  pub Tracks-round :
      (s : Subscription R) (k : Sink R) (bg : Active (SinkJob R)) (real : R)
      → round (perform_job k.default_log_call) (k.bg, k.real_sink) ≡ some (bg, real)
      → Tracks Allowed s k
      → Tracks Allowed s (record k { bg = bg; real_sink = real })
  Tracks-round s k bg real e t =
      let same : record k { bg = bg; real_sink = real } ≡ record {
        real_sink = real;
        bg = bg;
        default_log_call = s.log_call;
        destructor = s.destructor;
      } =
        ap (let moved : Sink R → Sink R = λ x. record x { bg = bg; real_sink = real } in moved)
          t.is_live in
      subst (Tracks Allowed s) (sym same) (
        sink_round s t.executed t.pending bg real
          (ap (λ x. round (perform_job x.default_log_call) (x.bg, x.real_sink)) (sym t.is_live) ∙ e)
          t.messages t.allowed)

  pub Tracks-call :
      (s : Subscription R) (k k' : Sink R) (func : R → R) (future : Future Unit)
      → handle_call func (some k) ≡ (some k', future)
      → Allowed func
      → Tracks Allowed s k
      → Tracks Allowed s k'
  unfolding handle_call async spawn_task send push
  Tracks-call s k k' func future e ok t =
      let called : k' ≡ called_sink func k = cc in
      record {
        executed = t.executed;
        pending = t.pending ++ SinkJob.invoke func ∷ [];
        is_live =
            called
            ∙ ap (called_sink func) t.is_live
            ∙ ap
                (λ q. record {
                  real_sink = run_jobs (perform_job s.log_call) t.executed s.first;
                  bg = record { mq = q; done = false };
                  default_log_call = s.log_call;
                  destructor = s.destructor;
                })
                (map-sent t.pending (SinkJob.invoke func));
        messages =
            messages_more s t.executed t.pending (SinkJob.invoke func) t.messages
            ∙ append-nil s.got;
        allowed = IsAllowed-more t.executed t.pending (SinkJob.invoke func) t.allowed ok;
      }
