-- ===== src/Pipeline/Journal.antt =====
-- An interface for real sinks that keep a text, and what that text is at the end of the process.
use myg3log.Base.{
  ◌≡◌, refl, sym, ◌∙◌, ap, subst, Bool, false, List, [], ◌∷◌, ◌++◌, Option, none, some, map,
  append_assoc, append-nil, All, Pointwise,
}
use myg3log.Base.Int.{ℤ}
use myg3log.Base.Text.{Text}
use myg3log.Levels.{Level}
use myg3log.Message.{LogMessage, FatalMessage}
use myg3log.Active.{Active}
use myg3log.Active.Draining.{run_jobs}
use myg3log.Sink.{SinkJob, perform_job}
use myg3log.FileSink.{Environment}
use myg3log.LogWorker.{Worker, Job, final_message}
use myg3log.Pipeline.{Request, save_request, fatal_request, add_request, Reach}
use myg3log.Pipeline.Spec.{
  Subscription, Account, no_account, serve_all, messages_of, IsAllowed, Served, Refines,
}
use myg3log.Pipeline.Refinement.{reach-Progress}
use myg3log.Pipeline.Ending.{serve_ended}

-- A real sink that adds an entry to a text for each message, while it is ready.
pub record Journal (R : Type 0) : Type 1 where
  pub log_call : LogMessage → R → R
  pub text : R → Text
  pub entry : LogMessage → Text
  pub IsReady : R → Type 0
  pub log-IsReady : (m : LogMessage) (r : R) → IsReady r → IsReady (log_call m r)
  -- Whether something is to be written before the next entry.
  pub due : R → Bool
  pub due-log_call : (m : LogMessage) (r : R) → IsReady r → due (log_call m r) ≡ false
  pub destructor : R → R
  pub text-log_call : (m : LogMessage) (r : R) → IsReady r → text (log_call m r) ≡ text r ++ entry m

serve_all-append_lists :
    (env : Environment) {R : Type 0} (rs qs : List (Request R)) (a : Account R)
    → serve_all env (rs ++ qs) a ≡ serve_all env qs (serve_all env rs a)
serve_all-append_lists env [] qs a = refl
serve_all-append_lists env (r ∷ rs) qs a = serve_all-append_lists env rs qs _

-- Once the process has ended, the requests that the worker has not served make no difference.
pub ended-Refines :
    (env : Environment) {R : Type 0} (Allowed : (R → R) → Type 0) {logging : Bool}
    {asked : List (Request R)} {now : Active (Job R) × Worker R}
    → Reach env Allowed logging asked now
    → (by : Level × ℤ) → now.1.exited ≡ some by
    → Refines Allowed (serve_all env asked no_account) now.1
ended-Refines env Allowed {now} h by x =
    let p = reach-Progress env Allowed h in
    let same =
      ap (λ l. serve_all env l no_account) p.order
      ∙ serve_all-append_lists env p.served p.queued no_account
      ∙ serve_ended env p.queued (serve_all env p.served no_account) by (sym p.refines.ended ∙ x) in
    subst (λ a. Refines Allowed a now.1) (sym same) p.refines

module _ {R : Type 0} (j : Journal R) where
  -- A call through a handle that leaves the text alone, and what is due.
  abbrev pub Harmless : (R → R) → Type 0
  Harmless call =
      (r : R)
      → j.IsReady r
      → j.IsReady (call r) × (j.text (call r) ≡ j.text r) × (j.due (call r) ≡ j.due r)

  abbrev pub entries : List LogMessage → Text
  entries [] = []
  entries (m ∷ ms) = j.entry m ++ entries ms

  -- A journal behind some text.
  abbrev Keeps : Text → R → Type 0
  Keeps t r = j.IsReady r × (j.text r ≡ t)

  jobs-text :
      (js : List (SinkJob R)) (r : R)
      → All (IsAllowed Harmless) js
      → j.IsReady r
      → Keeps (j.text r ++ entries (messages_of js)) (run_jobs (perform_job j.log_call) js r)
  unfolding perform_job
  jobs-text [] r h ready = (ready, sym (append-nil (j.text r)))
  jobs-text (SinkJob.deliver m ∷ js) r h ready =
      let (ready', rest) = jobs-text js (j.log_call m r) h.1 (j.log-IsReady m r ready) in
      (
        ready',
        rest
            ∙ ap (λ t. t ++ entries (messages_of js)) (j.text-log_call m r ready)
            ∙ append_assoc (j.text r) (j.entry m) (entries (messages_of js)),
      )
  jobs-text (SinkJob.invoke call ∷ js) r h ready =
      let (kept, same, due) = h.0 r ready in
      let (ready', rest) = jobs-text js (call r) h.1 kept in
      (ready', rest ∙ ap (λ t. t ++ entries (messages_of js)) same)

  stays_written :
      (js : List (SinkJob R)) (r : R)
      → All (IsAllowed Harmless) js
      → j.IsReady r
      → j.due r ≡ false
      → j.due (run_jobs (perform_job j.log_call) js r) ≡ false
  unfolding perform_job
  stays_written [] r h ready e = e
  stays_written (SinkJob.deliver m ∷ js) r h ready e =
      stays_written js (j.log_call m r) h.1 (j.log-IsReady m r ready) (j.due-log_call m r ready)
  stays_written (SinkJob.invoke call ∷ js) r h ready e =
      let (kept, same, due) = h.0 r ready in stays_written js (call r) h.1 kept (due ∙ e)

  -- Nothing is due once a message was logged.
  nothing_due :
      (js : List (SinkJob R)) (r : R) (ms : List LogMessage) (m : LogMessage)
      → All (IsAllowed Harmless) js
      → j.IsReady r
      → messages_of js ≡ ms ++ m ∷ []
      → j.due (run_jobs (perform_job j.log_call) js r) ≡ false
  unfolding perform_job
  nothing_due [] r [] m h ready e = absurd cc
  nothing_due [] r (n ∷ ms) m h ready e = absurd cc
  nothing_due (SinkJob.deliver n ∷ js) r ms m h ready e =
      stays_written js (j.log_call n r) h.1 (j.log-IsReady n r ready) (j.due-log_call n r ready)
  nothing_due (SinkJob.invoke call ∷ js) r ms m h ready e =
      let (kept, same, due) = h.0 r ready in nothing_due js (call r) ms m h.1 kept e

  -- The account of one sink that is given messages.
  abbrev given : R → List LogMessage → Subscription R
  given real ms = record {
    first = real;
    log_call = j.log_call;
    destructor = j.destructor;
    got = ms;
  }

  abbrev one_sink : R → List LogMessage → Account R
  one_sink real ms = record { subscribed = given real ms ∷ []; left = []; ended = none }

  saves_account :
      (env : Environment) (real : R) (ms got : List LogMessage) (rest : List (Request R))
      → serve_all env (map save_request ms ++ rest) (one_sink real got)
        ≡ serve_all env rest (one_sink real (got ++ ms))
  saves_account env real [] got rest =
      ap (λ l. serve_all env rest (one_sink real l)) (sym (append-nil got))
  saves_account env real (m ∷ ms) got rest =
      saves_account env real ms (got ++ m ∷ []) rest
      ∙ ap (λ l. serve_all env rest (one_sink real l)) (append_assoc got (m ∷ []) ms)

  account_at_end :
      (env : Environment) (real : R) (ms : List LogMessage) (f : FatalMessage)
      (behind : List (Request R))
      → serve_all env
          (add_request real j.log_call j.destructor ∷ map save_request ms
            ++ fatal_request f ∷ behind)
          no_account
        ≡ record {
          subscribed = [];
          left = given real (ms ++ final_message env f ∷ []) ∷ [];
          ended = some (f.log_message.level, f.signal_id);
        }
  account_at_end env real ms f behind =
      saves_account env real ms [] (fatal_request f ∷ behind) ∙ serve_ended env behind _ _ refl

  text_of_Served :
      (real : R) (ms : List LogMessage) (m : LogMessage) (closed : List (Option R))
      → j.IsReady real
      → Pointwise (Served Harmless) (given real (ms ++ m ∷ []) ∷ []) closed
      → (r : R) × (closed ≡ some (j.destructor r) ∷ [])
        × j.IsReady r
        × (j.due r ≡ false)
        × (j.text r ≡ j.text real ++ entries (ms ++ m ∷ []))
  text_of_Served real ms m [] ready h = absurd h
  text_of_Served real ms m (o ∷ p ∷ closed) ready h = absurd h.1
  text_of_Served real ms m (o ∷ []) ready (h, end) = (
    run_jobs (perform_job j.log_call) h.executed real,
    ap (λ x. x ∷ []) h.is_done,
    (jobs-text h.executed real h.allowed ready).0,
    nothing_due h.executed real ms m h.allowed ready h.messages,
    (jobs-text h.executed real h.allowed ready).1 ∙ ap (λ l. j.text real ++ entries l) h.messages,
  )

  -- In any interleaving: a journal is the one sink of a worker, and messages are saved, then a fatal
  -- message, then anything else is asked. When the process has ended, the journal was destroyed with
  -- nothing due, and its text before that is its first text and an entry for each of the messages in
  -- order, and the last for the fatal message, whatever harmless calls of the journal were made
  -- through its handle.
  pub text_at_end :
      (env : Environment) {logging : Bool} {now : Active (Job R) × Worker R} (real : R)
      (ms : List LogMessage) (f : FatalMessage) (behind : List (Request R)) (by : Level × ℤ)
      → Reach env Harmless logging
          (add_request real j.log_call j.destructor ∷ map save_request ms
            ++ fatal_request f ∷ behind)
          now
      → now.1.exited ≡ some by
      → j.IsReady real
      → (r : R) × (now.1.closed ≡ some (j.destructor r) ∷ [])
        × j.IsReady r
        × (j.due r ≡ false)
        × (j.text r ≡ j.text real ++ entries (ms ++ final_message env f ∷ []))
  text_at_end env {now} real ms f behind by h x ready =
      let refined = ended-Refines env Harmless h by x in
      let served =
        subst (λ a. Refines Harmless a now.1) (account_at_end env real ms f behind) refined in
      text_of_Served real ms (final_message env f) now.1.closed ready served.left
