-- ===== src/Macros/Programs.antt =====
-- Whole programs of statements: src/g3log/g3log.hpp, src/logcapture.cpp, src/g3log.cpp,
-- src/logworker.cpp and src/filesink.cpp from the macros to the log file.
use myg3log.Base.{
  ℕ, ◌≡◌, refl, ◌∙◌, ap, ap₂, arith, Bool, true, false, List, [], ◌∷◌, some, map, All,
  if◌then◌else◌,
}
use myg3log.Base.Text.{Text}
use myg3log.Levels.{Level, LogLevels, was_fatal, log_level}
use myg3log.Message.{LogMessage, FatalMessage}
use myg3log.Active.{Active}
use myg3log.LogWorker.{Job}
use myg3log.Logger.{Logger, Build}
use myg3log.Macros.Statements.{Place, log_statement}
use myg3log.Macros.Sending.{stated, Stated, log_statement-Stated}
use myg3log.Pipeline.{Request, save_request, issue}

-- `GLOG_LOG(level) << text`, at its place.
pub record Statement : Type 0 where
  pub place : Place
  pub level : Level
  pub text : Text

module _ (build : Build) where
  -- The messages that statements stand for: those whose level is on when they are executed.
  abbrev pub saves_of : List Statement → LogLevels → List LogMessage
  saves_of [] levels = []
  saves_of (st ∷ sts) levels =
      let (on, levels') = log_level build.dynamic_levels st.level levels in
      let rest = saves_of sts levels' in
      if on then stated build st.place st.level st.text ∷ rest else rest

module _ {R : Type 0} where
  abbrev pub issue_all : List (Request R) → Active (Job R) → Active (Job R)
  issue_all [] bg = bg
  issue_all (r ∷ rs) bg = issue_all rs (issue r bg)

module _ (build : Build) {R : Type 0} (run_hook : ℕ → Logger R → Logger R)
    (run_handler : ℕ → FatalMessage → Logger R → Logger R) where
  abbrev pub run_statements : List Statement → Logger R → Logger R
  run_statements [] s = s
  run_statements (st ∷ sts) s =
      run_statements sts (log_statement build run_hook run_handler st.place st.level st.text s)

  -- What statements leave: worker `w` was asked to save their messages, and only the queues and
  -- the table of the levels have changed.
  pub record Executed (sts : List Statement) (w : ℕ) (s s' : Logger R) : Type 0 where
    pub asked :
        s'.workers w ≡ issue_all (map save_request (saves_of build sts s.levels)) (s.workers w)
    pub rest : s' ≡ record s { workers = s'.workers; levels = s'.levels }

  abbrev asks_rest : List Statement → LogLevels → Active (Job R) → Active (Job R)
  asks_rest sts levels bg = issue_all (map save_request (saves_of build sts levels)) bg

  one_asked :
      (on : Bool) (st : Statement) (sts : List Statement) (w : ℕ) (s s1 : Logger R)
      → (log_level build.dynamic_levels st.level s.levels).0 ≡ on
      → Stated build run_hook run_handler st.place st.level st.text w s s1
      → asks_rest sts s1.levels (s1.workers w) ≡ asks_rest (st ∷ sts) s.levels (s.workers w)
  one_asked true st sts w s s1 e one =
      let asked : s1.workers w
          ≡ issue (save_request (stated build st.place st.level st.text)) (s.workers w) =
        one.asked ∙ ground (arith, e) in
      ap₂ (asks_rest sts) one.registered asked ∙ ground (arith, e)
  one_asked false st sts w s s1 e one =
      let asked : s1.workers w ≡ s.workers w = one.asked ∙ ground (arith, e) in
      ap₂ (asks_rest sts) one.registered asked ∙ ground (arith, e)

  after_one :
      (st : Statement) (sts : List Statement) (w : ℕ) (s s1 s2 : Logger R)
      → Stated build run_hook run_handler st.place st.level st.text w s s1
      → Executed sts w s1 s2
      → Executed (st ∷ sts) w s s2
  after_one st sts w s s1 s2 one more =
      let overwrite : Logger R → Logger R =
        λ x. record x { workers = s2.workers; levels = s2.levels } in
      record {
        asked =
            more.asked
            ∙ one_asked (log_level build.dynamic_levels st.level s.levels).0 st sts w s s1 refl one;
        rest = more.rest ∙ ap overwrite one.rest;
      }

  -- Statements at levels that are not fatal, while worker `w` is active, ask it to save the
  -- messages of those whose level is on, in order, and change nothing but its queue and the table.
  pub run_statements-Executed :
      (sts : List Statement) (w : ℕ) (s : Logger R)
      → All (λ st. was_fatal st.level ≡ false) sts
      → s.logger_instance ≡ some w
      → Executed sts w s (run_statements sts s)
  run_statements-Executed [] w s n l = record { asked = refl; rest = refl }
  run_statements-Executed (st ∷ sts) w s n l =
      let one =
        log_statement-Stated build run_hook run_handler st.place st.level st.text w s n.0 l in
      after_one st sts w s _ _ one
        (run_statements-Executed sts w _ n.1 (ap (λ x. x.logger_instance) one.rest ∙ l))
