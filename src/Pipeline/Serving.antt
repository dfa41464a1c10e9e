-- ===== src/Pipeline/Serving.antt =====
-- What the worker's thread does with a request is what the specification says.
use myg3log.Base.{
  ◌≡◌, refl, sym, ◌∙◌, subst, arith, List, [], ◌∷◌, ◌++◌, none, some, map, inl, inr, Option-cases,
  List-cases, map_id, Pointwise, Pointwise-append, Pointwise-map,
}
use myg3log.Base.Int.{ℤ}
use myg3log.Levels.{Level}
use myg3log.Message.{LogMessage, FatalMessage}
use myg3log.Message.Build.{copy}
use myg3log.Active.{Active, Callback, perform}
use myg3log.Sink.{Sink, create_sink, send_message, destroy_sink}
use myg3log.FileSink.{Environment}
use myg3log.LogWorker.{
  Worker, Job, add_sink_job, clear_sinks_job, save_job, fatal_job, final_message, bg_save, bg_fatal,
  perform_job as perform_for_worker,
}
use myg3log.Pipeline.{
  Request, save_request, fatal_request, add_request, clear_request, done_request,
}
use myg3log.Pipeline.Spec.{Subscription, Account, give, serve_live, serve, Tracks, Served, Refines}
use myg3log.Pipeline.Tracking.{Tracks-give, Served-destroy, Tracks-create}

module _ {R : Type 0} where
  -- What a request puts into the queue of the worker.
  abbrev pub callback_of : Request R → Callback (Job R)
  callback_of (save_request m) = Callback.call (save_job m)
  callback_of (fatal_request f) = Callback.call (fatal_job f)
  callback_of (add_request real call destructor) =
      Callback.call (add_sink_job (create_sink real call destructor))
  callback_of clear_request = Callback.call clear_sinks_job
  callback_of done_request = Callback.set_done

module _ (env : Environment) {R : Type 0} where
  bg_save_parts :
      (m : LogMessage) (w : Worker R)
      → ((bg_save env m w).sinks ≡ map (send_message (copy m)) w.sinks)
        × ((bg_save env m w).closed ≡ w.closed)
        × ((bg_save env m w).exited ≡ w.exited)
  unfolding bg_save
  bg_save_parts m w = elim (List-cases w.sinks) [
    | inl e ↦ (ground (arith, e), ground (arith, e), ground (arith, e))
    | inr (k, ks, e) ↦ (ground (arith, e), ground (arith, e), ground (arith, e))
  ]

  ended-idle :
      (r : Request R) (bg : Active (Job R)) (w : Worker R) (by : Level × ℤ)
      → w.exited ≡ some by
      → (perform (perform_for_worker env) (callback_of r) (bg, w)).1 ≡ w
  unfolding perform perform_for_worker
  ended-idle (save_request m) bg w by e = ground (arith, e)
  ended-idle (fatal_request f) bg w by e = ground (arith, e)
  ended-idle (add_request real call destructor) bg w by e = ground (arith, e)
  ended-idle clear_request bg w by e = ground (arith, e)
  ended-idle done_request bg w by e = refl

module _ {R : Type 0} (Allowed : (R → R) → Type 0) where
  left-Served :
      (a : Account R) (w : Worker R)
      → Refines Allowed a w
      → (ps : List (Subscription R)) (ks : List (Sink R)) → Pointwise (Tracks Allowed) ps ks
      → Pointwise (Served Allowed) (a.left ++ ps) (w.closed ++ map destroy_sink ks)
  left-Served a w h ps ks t =
      Pointwise-append (Served Allowed) a.left ps w.closed (map destroy_sink ks) h.left (
        subst (λ l. Pointwise (Served Allowed) l (map destroy_sink ks)) (map_id ps)
          (Pointwise-map (Tracks Allowed) (Served Allowed) (λ p. p) destroy_sink
            (Served-destroy Allowed) ps ks t))

module _ (env : Environment) {R : Type 0} (Allowed : (R → R) → Type 0) where
  save-Refines :
      (m : LogMessage) (a : Account R) (w : Worker R)
      → Refines Allowed a w
      → Refines Allowed (serve_live env (save_request m) a) (bg_save env m w)
  save-Refines m a w h =
      let (kept, closed, exited) = bg_save_parts env m w in
      record {
        subscribed = subst (Pointwise (Tracks Allowed) (map (give m) a.subscribed)) (sym kept) (
            Pointwise-map (Tracks Allowed) (Tracks Allowed) (give m) (send_message (copy m))
              (Tracks-give Allowed m) a.subscribed w.sinks h.subscribed);
        left = subst (Pointwise (Served Allowed) a.left) (sym closed) h.left;
        ended = exited ∙ h.ended;
      }

  fatal-Refines :
      (f : FatalMessage) (a : Account R) (w : Worker R)
      → Refines Allowed a w
      → Refines Allowed (serve_live env (fatal_request f) a) (bg_fatal env f w)
  unfolding bg_fatal
  fatal-Refines f a w h = record {
    subscribed = tt;
    left = left-Served Allowed a w h _ _ (
        Pointwise-map (Tracks Allowed) (Tracks Allowed) (give (final_message env f))
          (send_message (copy (final_message env f))) (Tracks-give Allowed (final_message env f))
          a.subscribed w.sinks h.subscribed);
    ended = refl;
  }

  live-Refines :
      (r : Request R) (a : Account R) (bg : Active (Job R)) (w : Worker R)
      → w.exited ≡ none
      → Refines Allowed a w
      → Refines Allowed
          (serve_live env r a)
          (perform (perform_for_worker env) (callback_of r) (bg, w)).1
  unfolding perform perform_for_worker
  live-Refines (save_request m) a bg w n h = rw (n, perform_for_worker) (save-Refines m a w h)
  live-Refines (fatal_request f) a bg w n h = rw (n, perform_for_worker) (fatal-Refines f a w h)
  live-Refines (add_request real call destructor) a bg w n h =
      rw (n, perform_for_worker)
        (record {
          subscribed =
              Pointwise-append (Tracks Allowed) a.subscribed (_ ∷ []) w.sinks
                (create_sink real call destructor ∷ []) h.subscribed
                (Tracks-create Allowed real call destructor, tt);
          left = h.left;
          ended = h.ended;
        })
  live-Refines clear_request a bg w n h =
      rw (n, perform_for_worker)
        (record {
          subscribed = tt;
          left = left-Served Allowed a w h a.subscribed w.sinks h.subscribed;
          ended = h.ended;
        })
  live-Refines done_request a bg w n h = h

  pub serve-Refines :
      (r : Request R) (a : Account R) (bg : Active (Job R)) (w : Worker R)
      → Refines Allowed a w
      → Refines Allowed (serve env r a) (perform (perform_for_worker env) (callback_of r) (bg, w)).1
  serve-Refines r a bg w h = elim (Option-cases a.ended) [
    | inl n ↦
        let served : serve env r a ≡ serve_live env r a = ground (arith, n) in
        subst (λ b. Refines Allowed b (perform (perform_for_worker env) (callback_of r) (bg, w)).1)
          (sym served) (live-Refines r a bg w (h.ended ∙ n) h)
    | inr (by, e) ↦
        let served : serve env r a ≡ a = ground (arith, e) in
        subst (λ b. Refines Allowed b (perform (perform_for_worker env) (callback_of r) (bg, w)).1)
          (sym served) (subst (Refines Allowed a) (sym (ended-idle env r bg w by (h.ended ∙ e))) h)
  ]
