-- ===== src/Pipeline/Refinement.antt =====
-- Every interleaving of the threads keeps what the specification promises.
use myg3log.Base.{
  ◌≡◌, refl, sym, ◌∙◌, ap, subst, Bool, arith, List, [], ◌∷◌, ◌++◌, none, some, map, append_assoc,
  Pointwise, Pointwise-change,
}
use myg3log.Active.{Active, create_active, round, perform}
use myg3log.Active.Order.{perform_parts}
use myg3log.Active.Queue.{push, wait_and_pop}
use myg3log.Sink.{Sink}
use myg3log.FileSink.{Environment}
use myg3log.LogWorker.{Worker, Job, perform_job as perform_for_worker}
use myg3log.Pipeline.{
  Request, save_request, fatal_request, add_request, clear_request, done_request, create_worker,
  issue, Reach, created, asks, works, sinks, calls,
}
use myg3log.Pipeline.Spec.{Subscription, Account, no_account, serve, serve_all, Tracks, Refines}
use myg3log.Pipeline.Tracking.{Tracks-round, Tracks-call}
use myg3log.Pipeline.Serving.{callback_of, serve-Refines}

module _ {R : Type 0} where
  issue-queue :
      (r : Request R) (bg : Active (Job R)) → (issue r bg).mq ≡ bg.mq ++ callback_of r ∷ []
  unfolding issue push
  issue-queue (save_request m) bg = refl
  issue-queue (fatal_request f) bg = refl
  issue-queue (add_request real call destructor) bg = refl
  issue-queue clear_request bg = refl
  issue-queue done_request bg = refl

  pub serve_all-append :
      (env : Environment) (rs : List (Request R)) (r : Request R) (a : Account R)
      → serve_all env (rs ++ r ∷ []) a ≡ serve env r (serve_all env rs a)
  serve_all-append env [] r a = refl
  serve_all-append env (q ∷ rs) r a = serve_all-append env rs r (serve env q a)

  map-callback_of :
      (rs : List (Request R)) (r : Request R)
      → map callback_of rs ++ callback_of r ∷ [] ≡ map callback_of (rs ++ r ∷ [])
  map-callback_of [] r = refl
  map-callback_of (q ∷ rs) r = ap (◌∷◌ (callback_of q)) (map-callback_of rs r)

module _ {R : Type 0} (Allowed : (R → R) → Type 0) where
  Refines-change :
      (a : Account R) (w : Worker R) (before : List (Sink R)) (k k' : Sink R)
      (behind : List (Sink R))
      → w.sinks ≡ before ++ k ∷ behind
      → ((s : Subscription R) → Tracks Allowed s k → Tracks Allowed s k')
      → Refines Allowed a w
      → Refines Allowed a (record w { sinks = before ++ k' ∷ behind })
  Refines-change a w before k k' behind e f h = record {
    subscribed =
        Pointwise-change (Tracks Allowed) a.subscribed before k k' behind f
          (subst (Pointwise (Tracks Allowed) a.subscribed) e h.subscribed);
    left = h.left;
    ended = h.ended;
  }

module _ (env : Environment) {R : Type 0} (Allowed : (R → R) → Type 0) where
  -- Where the requests stand: those that the thread has served, and those in its queue.
  pub record Progress (asked : List (Request R)) (now : Active (Job R) × Worker R) : Type 0 where
    pub served : List (Request R)
    pub queued : List (Request R)
    pub order : asked ≡ served ++ queued
    pub queue : now.0.mq ≡ map callback_of queued
    pub refines : Refines Allowed (serve_all env served no_account) now.1

module _ (env : Environment) {R : Type 0} (Allowed : (R → R) → Type 0) where
  round-Progress :
      (served queued asked : List (Request R)) (bg : Active (Job R)) (w : Worker R)
      (next : Active (Job R) × Worker R)
      → asked ≡ served ++ queued
      → bg.mq ≡ map callback_of queued
      → Refines Allowed (serve_all env served no_account) w
      → round (perform_for_worker env) (bg, w) ≡ some next
      → Progress env Allowed asked next
  unfolding round wait_and_pop
  round-Progress served [] asked bg w next order queue h e =
      let waits : round (perform_for_worker env) (bg, w) ≡ none = ground (arith, queue) in
      let clash : none ≡ some next = sym waits ∙ e in absurd cc
  round-Progress served (r ∷ rs) asked bg w next order queue h e =
      let a : Active (Job R) = record bg { mq = map callback_of rs } in
      let after : round (perform_for_worker env) (bg, w)
          ≡ some (perform (perform_for_worker env) (callback_of r) (a, w)) =
        ground (arith, queue) in
      let done : perform (perform_for_worker env) (callback_of r) (a, w) ≡ next = cc in
      subst (Progress env Allowed asked) done (record {
        served = served ++ r ∷ [];
        queued = rs;
        order = order ∙ sym (append_assoc served (r ∷ []) rs);
        queue = (perform_parts (perform_for_worker env) (callback_of r) a w).0;
        refines =
            subst
              (λ b. Refines Allowed b (perform (perform_for_worker env) (callback_of r) (a, w)).1)
              (sym (serve_all-append env served r no_account))
              (serve-Refines env Allowed r (serve_all env served no_account) a w h);
      })

  -- In every state that the threads of a worker and of its sinks reach, in any interleaving, the
  -- requests are those that the worker has served and those in its queue, in the order in which
  -- they were made, and the worker refines the specification for the requests that it has served:
  -- each sink has a live thread, and what it has done and what is pending hold exactly the
  -- messages saved since it was added, in order; a sink that is gone has nothing pending.
  pub reach-Progress :
      {logging : Bool} {asked : List (Request R)} {now : Active (Job R) × Worker R}
      → Reach env Allowed logging asked now
      → Progress env Allowed asked now
  unfolding create_worker create_active
  reach-Progress created = record {
    served = [];
    queued = [];
    order = refl;
    queue = refl;
    refines = record { subscribed = tt; left = tt; ended = refl };
  }
  reach-Progress (asks {asked} {bg} {w} h r) =
      let p = reach-Progress h in
      record {
        served = p.served;
        queued = p.queued ++ r ∷ [];
        order = ap (λ l. l ++ r ∷ []) p.order ∙ append_assoc p.served p.queued (r ∷ []);
        queue =
            issue-queue r bg
            ∙ ap (λ l. l ++ callback_of r ∷ []) p.queue
            ∙ map-callback_of p.queued r;
        refines = p.refines;
      }
  reach-Progress (works {asked} {bg} {w} h running next e) =
      let p = reach-Progress h in
      round-Progress p.served p.queued asked bg w next p.order p.queue p.refines e
  reach-Progress (sinks {w = w} h before s behind e running sink_bg real r) =
      let p = reach-Progress h in
      record {
        served = p.served;
        queued = p.queued;
        order = p.order;
        queue = p.queue;
        refines =
            Refines-change Allowed (serve_all env p.served no_account) w before s
              (record s { bg = sink_bg; real_sink = real }) behind e
              (λ b. Tracks-round Allowed b s sink_bg real r) p.refines;
      }
  reach-Progress (calls {w = w} h before s s' behind e func future ok c) =
      let p = reach-Progress h in
      record {
        served = p.served;
        queued = p.queued;
        order = p.order;
        queue = p.queue;
        refines =
            Refines-change Allowed (serve_all env p.served no_account) w before s s' behind e
              (λ b. Tracks-call Allowed b s s' func future c ok) p.refines;
      }
