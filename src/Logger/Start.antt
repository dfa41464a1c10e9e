-- ===== src/Logger/Start.antt =====
-- src/g3log.cpp: messages before the logger is initialised, and the initialisation.
use myg3log.Base.{
  ℕ, ◌≡◌, ◌≢◌, ◌⊎◌, inl, inr, refl, ap, ◌∙◌, arith, true, false, List, [], ◌∷◌, Option, none, some,
  ◌==◌, Bool-cases, Option-cases,
}
use myg3log.Message.{LogMessage}
use myg3log.LogWorker
use myg3log.Logger.{
  Control, Hook, Logger, Build, push_message_to_logger, mark_uninitialized, initialize_logging,
  install_once, save_first, save_to, put,
}

pub put_same {ℓ} : {A : Type ℓ} (f : ℕ → A) (k : ℕ) (v : A) → put f k v k ≡ v
put_same f k v = ground arith

pub put_other {ℓ} :
    {A : Type ℓ} (f : ℕ → A) (k j : ℕ) (v : A) → (k == j) ≡ false → put f k v j ≡ f j
put_other f k j v h = ground arith

module _ {R : Type 0} where
  -- Messages pushed one after the other.
  abbrev pub push_all : List LogMessage → Logger R → Logger R
  push_all [] s = s
  push_all (m ∷ ms) s = push_all ms (push_message_to_logger m s)

  -- Without a logger, nothing happens to a message when the first one is kept.
  pushes_dropped :
      (ms : List LogMessage) (s : Logger R)
      → s.logger_instance ≡ none
      → s.first_set ≡ true
      → push_all ms s ≡ s
  unfolding push_message_to_logger
  pushes_dropped [] s h f = refl
  pushes_dropped (m ∷ ms) s h f =
      ap (push_all ms) (let e : push_message_to_logger m s ≡ s = ground arith in e)
      ∙ pushes_dropped ms s h f

  -- What worker `w` has after its initialisation, when nothing was logged before with a logger.
  pub record Started (w : ℕ) (m : LogMessage) (s s' : Logger R) : Type 0 where
    pub active : s'.logger_instance ≡ some w
    pub first : s'.workers w ≡ LogWorker.save (mark_uninitialized m) (s.workers w)
    pub rest : (v : ℕ) → (w == v) ≡ false → s'.workers v ≡ s.workers v
    pub handed_over : s'.first_uninitialized_msg ≡ none
    pub no_hook : s'.hook ≡ Hook.does_nothing
    pub reset : s'.recursive_counter ≡ 0
    pub runs : s'.control ≡ s.control

module _ (build : Build) {R : Type 0} where
  start :
      (w : ℕ) (m : LogMessage) (s : Logger R)
      → s.logger_instance ≡ none
      → s.first_saved ≡ false
      → s.first_uninitialized_msg ≡ some (mark_uninitialized m)
      → Started w m s (initialize_logging build (some w) s)
  unfolding initialize_logging install_once save_first save_to
  start w m s h f g = elim (Bool-cases s.initialized) [
    | inl e ↦ record {
      active = ground arith;
      first = ground arith;
      rest = λ v n. ground arith;
      handed_over = ground arith;
      no_hook = ground arith;
      reset = ground arith;
      runs = ground arith;
    }
    | inr e ↦ record {
      active = ground arith;
      first = ground arith;
      rest = λ v n. ground arith;
      handed_over = ground arith;
      no_hook = ground arith;
      reset = ground arith;
      runs = ground arith;
    }
  ]

  -- Messages are logged before any logger is there, and then a worker is initialised. The worker
  -- is active, and it has been sent the first of the messages, marked as uninitialised, behind what
  -- it had; the later messages are dropped, and the other workers are sent nothing. The hook is
  -- the one that does nothing, and the counter of recursive crashes is 0.
  pub first_message_kept :
      (w : ℕ) (m : LogMessage) (ms : List LogMessage) (s : Logger R)
      → s.logger_instance ≡ none
      → s.first_set ≡ false
      → s.first_saved ≡ false
      → Started w m s (initialize_logging build (some w) (push_all (m ∷ ms) s))
  unfolding push_message_to_logger
  first_message_kept w m ms s h f g =
      let s1 = push_message_to_logger m s in
      let none1 : s1.logger_instance ≡ none = ground arith in
      let set1 : s1.first_set ≡ true = ground arith in
      let saved1 : s1.first_saved ≡ false = ground arith in
      let kept1 : s1.first_uninitialized_msg ≡ some (mark_uninitialized m) = ground arith in
      let d = start w m s1 none1 saved1 kept1 in
      let same : s1.workers ≡ s.workers = ground arith in
      let control : s1.control ≡ s.control = ground arith in
      rw (pushes_dropped ms s1 none1 set1) (record {
        active = d.active;
        first = d.first ∙ ap (λ f. LogWorker.save (mark_uninitialized m) (f w)) same;
        rest = λ v n. d.rest v n ∙ ap (λ f. f v) same;
        handed_over = d.handed_over;
        no_hook = d.no_hook;
        reset = d.reset;
        runs = d.runs ∙ control;
      })

  -- An initialisation with the null pointer, or while a worker is active, ends the process with
  -- a failure; the active worker and the hook stay, and no worker is sent anything.
  pub initialization_refused :
      (bgworker : Option ℕ) (s : Logger R)
      → (bgworker ≡ none) ⊎ (s.logger_instance ≢ none)
      → let s' = initialize_logging build bgworker s in
        (s'.control ≡ Control.failed)
        × (s'.logger_instance ≡ s.logger_instance)
        × (s'.workers ≡ s.workers)
        × (s'.hook ≡ s.hook)
  unfolding initialize_logging install_once
  initialization_refused none s h = elim (Bool-cases s.initialized) [
    | inl e ↦ ground arith
    | inr e ↦ ground arith
  ]
  initialization_refused (some w) s (inl e) = absurd (ground (arith, e))
  initialization_refused (some w) s (inr n) = elim (Option-cases s.logger_instance) [
    | inl e ↦ absurd (n e)
    | inr (v, e) ↦ elim (Bool-cases s.initialized) [ inl b ↦ ground arith | inr b ↦ ground arith ]
  ]
