-- ===== src/Pipeline/Ending.antt =====
-- How a process ends, in any interleaving of its threads.
use myg3log.Base.{
  ◌≡◌, refl, sym, ◌∙◌, ap, ap₂, subst, Bool, arith, List, [], ◌∷◌, ◌++◌, none, some, map,
  append_assoc, Pointwise,
}
use myg3log.Base.Int.{ℤ}
use myg3log.Levels.{Level}
use myg3log.Message.{FatalMessage}
use myg3log.Active.{Active}
use myg3log.Sink.{Sink}
use myg3log.FileSink.{Environment}
use myg3log.LogWorker.{Worker, Job, final_message}
use myg3log.Pipeline.{
  Request, save_request, fatal_request, add_request, clear_request, done_request, Reach,
}
use myg3log.Pipeline.Spec.{
  Subscription, Account, no_account, give, serve_live, serve, serve_all, Tracks, Served, Refines,
}
use myg3log.Pipeline.Refinement.{serve_all-append, reach-Progress}

no_sinks :
    {R : Type 0} (P : Subscription R → Sink R → Type 0) (ks : List (Sink R))
    → Pointwise P [] ks
    → ks ≡ []
no_sinks P [] h = refl
no_sinks P (k ∷ ks) h = absurd h

module _ (env : Environment) {R : Type 0} where
  -- The subscriptions that a fatal message leaves, after the requests before it.
  abbrev pub left_by : List (Request R) → FatalMessage → List (Subscription R)
  left_by before f =
      let a = serve_all env before no_account in
      a.left ++ map (give (final_message env f)) a.subscribed

  -- The first fatal message among the requests, and the signal that it stands for.
  pub record EndedBy (by : Level × ℤ) (rs : List (Request R)) : Type 0 where
    pub before : List (Request R)
    pub fatal : FatalMessage
    pub behind : List (Request R)
    pub order : rs ≡ before ++ fatal_request fatal ∷ behind
    pub running : (serve_all env before no_account).ended ≡ none
    pub signal : by ≡ (fatal.log_message.level, fatal.signal_id)

  pub serve_ended :
      (rs : List (Request R)) (a : Account R) (by : Level × ℤ)
      → a.ended ≡ some by
      → serve_all env rs a ≡ a
  serve_ended [] a by e = refl
  serve_ended (r ∷ rs) a by e =
      let same : serve env r a ≡ a = ground (arith, e) in
      ap (serve_all env rs) same ∙ serve_ended rs a by e

  abbrev Found : Level × ℤ → List (Request R) → Account R → Type 0
  Found by rs a =
      (e : EndedBy by rs) × (a
        ≡ record { subscribed = []; left = left_by e.before e.fatal; ended = some by })

  ended_later :
      (r : Request R) (rs : List (Request R))
      → ((done : List (Request R)) (a : Account R) (by : Level × ℤ)
          → serve_all env done no_account ≡ a
          → a.ended ≡ none
          → (serve_all env rs a).ended ≡ some by
          → Found by (done ++ rs) (serve_all env rs a))
      → (done : List (Request R)) (a : Account R) (by : Level × ℤ)
      → serve_all env done no_account ≡ a
      → (serve env r a).ended ≡ none
      → (serve_all env rs (serve env r a)).ended ≡ some by
      → Found by (done ++ r ∷ rs) (serve_all env rs (serve env r a))
  ended_later r rs rest done a by d n e =
      subst (λ l. Found by l (serve_all env rs (serve env r a))) (append_assoc done (r ∷ []) rs)
        (rest (done ++ r ∷ []) (serve env r a) by
          (serve_all-append env done r no_account ∙ ap (serve env r) d) n e)

  ended_cases :
      (rs done : List (Request R)) (a : Account R) (by : Level × ℤ)
      → serve_all env done no_account ≡ a
      → a.ended ≡ none
      → (serve_all env rs a).ended ≡ some by
      → Found by (done ++ rs) (serve_all env rs a)
  ended_cases [] done a by d n e = let clash : none ≡ some by = sym n ∙ e in absurd cc
  ended_cases (fatal_request f ∷ rs) done a by d n e =
      let after : serve env (fatal_request f) a ≡ serve_live env (fatal_request f) a =
        ground (arith, n) in
      let last : serve_all env rs (serve env (fatal_request f) a)
          ≡ serve_live env (fatal_request f) a =
        ap (serve_all env rs) after ∙ serve_ended rs (serve_live env (fatal_request f) a) _ refl in
      let signal : some (f.log_message.level, f.signal_id) ≡ some by =
        sym (ap (λ b. b.ended) last) ∙ e in
      let by_signal : by ≡ (f.log_message.level, f.signal_id) = cc in
      (
        record {
          before = done;
          fatal = f;
          behind = rs;
          order = refl;
          running = ap (λ b. b.ended) d ∙ n;
          signal = by_signal;
        },
        last
            ∙ ap₂
                (λ b o. record {
                  subscribed = [];
                  left = b.left ++ map (give (final_message env f)) b.subscribed;
                  ended = o;
                })
                (sym d) signal,
      )
  ended_cases (save_request m ∷ rs) done a by d n e =
      ended_later (save_request m) rs (ended_cases rs) done a by d (ground (arith, n)) e
  ended_cases (add_request real call destructor ∷ rs) done a by d n e =
      ended_later (add_request real call destructor) rs (ended_cases rs) done a by d
        (ground (arith, n)) e
  ended_cases (clear_request ∷ rs) done a by d n e =
      ended_later clear_request rs (ended_cases rs) done a by d (ground (arith, n)) e
  ended_cases (done_request ∷ rs) done a by d n e =
      ended_later done_request rs (ended_cases rs) done a by d (ground (arith, n)) e

  -- More requests that are still in the queue.
  with_queued :
      (by : Level × ℤ) (served queued asked : List (Request R)) (a : Account R)
      → asked ≡ served ++ queued
      → Found by served a
      → Found by asked a
  with_queued by served queued asked a order (e, account) = (
    record {
      before = e.before;
      fatal = e.fatal;
      behind = e.behind ++ queued;
      order =
          order
          ∙ ap (λ l. l ++ queued) e.order
          ∙ append_assoc e.before (fatal_request e.fatal ∷ e.behind) queued;
      running = e.running;
      signal = e.signal;
    },
    account,
  )

module _ (env : Environment) {R : Type 0} (Allowed : (R → R) → Type 0) where
  -- In any interleaving of the threads, a process ends only by a fatal message that it was asked
  -- to log, and by the signal of the first of them that finds the process alive. Then no sink is
  -- left, and every real sink that was added before that message has done all its jobs before
  -- it was destroyed: it has logged exactly the messages saved from its addition on and before the
  -- fatal message, in order, and the fatal message last, unless its sink was cleared before; nothing
  -- that was asked behind the fatal message is logged.
  pub ended-EndedBy :
      {logging : Bool} {asked : List (Request R)} {now : Active (Job R) × Worker R}
      → Reach env Allowed logging asked now
      → (by : Level × ℤ) → now.1.exited ≡ some by
      → (e : EndedBy env by asked) × (now.1.sinks ≡ [])
        × Pointwise (Served Allowed) (left_by env e.before e.fatal) now.1.closed
  ended-EndedBy {now} h by x =
      let p = reach-Progress env Allowed h in
      let (e, account) =
        with_queued env by p.served p.queued _ _ p.order
          (ended_cases env p.served [] no_account by refl refl (sym p.refines.ended ∙ x)) in
      let r = subst (λ a. Refines Allowed a now.1) account p.refines in
      (e, no_sinks (Tracks Allowed) now.1.sinks r.subscribed, r.left)
