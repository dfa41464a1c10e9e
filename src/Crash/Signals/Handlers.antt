-- ===== src/Crash/Signals/Handlers.antt =====
-- The handlers that stand after each call.
use myg3log.Base.{
  ◌≡◌, refl, arith, Bool, true, false, ◌&&◌, ◌||◌, List, [], ◌∷◌, Option, none, some, if◌then◌else◌,
  Option-cases, inl, inr,
}
use myg3log.Base.Int.{ℤ, eqb_ℤ, eqb_ℤ→eq, eqb_ℤ_refl}
use myg3log.Base.Text.{Text}
use myg3log.Crash.Signals.{
  Action, Signals, install_one, install_all, install_signal_handler, restore_signal_handler,
  restore_all, override_setup_signals, exit_with_default_signal_handler,
}

abbrev pub listed : ℤ → List (ℤ × Text) → Bool
listed sig [] = false
listed sig ((k, name) ∷ sigs) = eqb_ℤ k sig || listed sig sigs

-- No number stands twice, as in every `std::map`.
abbrev pub Distinct : List (ℤ × Text) → Type 0
Distinct [] = Unit {0}
Distinct ((k, name) ∷ sigs) = (listed k sigs ≡ false) × Distinct sigs

module _ (accepts : ℤ → Bool) where
  -- With `before` as the actions of the system before the first installation: the signals of the
  -- list that the system accepts have the handler of this library and their old action saved; all
  -- others have their old action and nothing saved.
  pub record Installed (before : ℤ → Action) (sigs : List (ℤ × Text)) (s : Signals) : Type 0 where
    pub acts :
        (sig : ℤ)
        → s.system sig ≡ (if listed sig sigs && accepts sig then Action.ours else before sig)
    pub kept :
        (sig : ℤ)
        → s.saved sig ≡ (if listed sig sigs && accepts sig then some (before sig) else none)

  install_all-acts :
      (sigs : List (ℤ × Text)) (s : Signals) (sig : ℤ)
      → (install_all accepts false sigs s).system sig
        ≡ (if listed sig sigs && accepts sig then Action.ours else s.system sig)
  unfolding install_all install_one
  install_all-acts [] s sig = refl
  install_all-acts ((k, name) ∷ sigs) s sig =
      ground (arith, install_all-acts sigs (install_one accepts false k s) sig, eqb_ℤ→eq k sig)

  install_all-saved :
      (sigs : List (ℤ × Text)) (s : Signals) (sig : ℤ)
      → Distinct sigs
      → (install_all accepts false sigs s).saved sig
        ≡ (if listed sig sigs && accepts sig then some (s.system sig) else s.saved sig)
  unfolding install_all install_one
  install_all-saved [] s sig d = refl
  install_all-saved ((k, name) ∷ sigs) s sig d =
      ground (arith, install_all-saved sigs (install_one accepts false k s) sig d.1, eqb_ℤ→eq k sig)

  -- A signal is saved only if the system accepts it.
  abbrev OnlyAccepted : Signals → Type 0
  OnlyAccepted s = (k : ℤ) → accepts k ≡ false → s.saved k ≡ none

  -- The action of a signal whose saved action is put back.
  abbrev put_back : Option Action → Action → Action
  put_back none now = now
  put_back (some old) now = old

  -- After `restoreSignalHandler(k)`.
  restore_one-acts :
      (k : ℤ) (s : Signals) (sig : ℤ)
      → OnlyAccepted s
      → (restore_signal_handler accepts false k s).system sig
        ≡ (if eqb_ℤ k sig then put_back (s.saved sig) (s.system sig) else s.system sig)
  unfolding restore_signal_handler
  restore_one-acts k s sig h = elim (Option-cases (s.saved k)) [
    | inl e ↦ ground (arith, e, eqb_ℤ→eq k sig)
    | inr (old, e) ↦ ground (arith, e, eqb_ℤ→eq k sig, h k)
  ]

  restore_one-saved :
      (k : ℤ) (s : Signals) (sig : ℤ)
      → (restore_signal_handler accepts false k s).saved sig
        ≡ (if eqb_ℤ k sig then none else s.saved sig)
  unfolding restore_signal_handler
  restore_one-saved k s sig = elim (Option-cases (s.saved k)) [
    | inl e ↦ ground (arith, e, eqb_ℤ→eq k sig)
    | inr (old, e) ↦ ground (arith, e, eqb_ℤ→eq k sig)
  ]

  restore_one-OnlyAccepted :
      (k : ℤ) (s : Signals)
      → OnlyAccepted s
      → OnlyAccepted (restore_signal_handler accepts false k s)
  restore_one-OnlyAccepted k s h j a = ground (arith, restore_one-saved k s j, h j a)

  restore_all-acts :
      (sigs : List (ℤ × Text)) (s : Signals) (sig : ℤ)
      → OnlyAccepted s
      → (restore_all accepts false sigs s).system sig
        ≡ (if listed sig sigs then put_back (s.saved sig) (s.system sig) else s.system sig)
  unfolding restore_all
  restore_all-acts [] s sig h = refl
  restore_all-acts ((k, name) ∷ sigs) s sig h =
      let s' = restore_signal_handler accepts false k s in
      elim (Option-cases (s.saved sig)) [
        | inl e ↦ ground (
          arith,
          e,
          restore_all-acts sigs s' sig (restore_one-OnlyAccepted k s h),
          restore_one-acts k s sig h,
          restore_one-saved k s sig,
        )
        | inr (old, e) ↦ ground (
          arith,
          e,
          restore_all-acts sigs s' sig (restore_one-OnlyAccepted k s h),
          restore_one-acts k s sig h,
          restore_one-saved k s sig,
        )
      ]

  restore_all-saved :
      (sigs : List (ℤ × Text)) (s : Signals) (sig : ℤ)
      → (restore_all accepts false sigs s).saved sig
        ≡ (if listed sig sigs then none else s.saved sig)
  unfolding restore_all
  restore_all-saved [] s sig = refl
  restore_all-saved ((k, name) ∷ sigs) s sig = ground (
    arith,
    restore_all-saved sigs (restore_signal_handler accepts false k s) sig,
    restore_one-saved k s sig,
  )

  Installed-OnlyAccepted :
      (before : ℤ → Action) (s : Signals) → Installed before s.g_signals s → OnlyAccepted s
  Installed-OnlyAccepted before s h k a = ground (arith, h.kept k, a)

  -- Nothing is installed.
  abbrev IsClean : (ℤ → Action) → Signals → Type 0
  IsClean before s = ((sig : ℤ) → s.system sig ≡ before sig) × ((sig : ℤ) → s.saved sig ≡ none)

  -- Restoring every signal gives the system its old actions back.
  pub restore_all-Installed :
      (before : ℤ → Action) (s : Signals)
      → Installed before s.g_signals s
      → IsClean before (restore_all accepts false s.g_signals s)
  restore_all-Installed before s h = (
    (λ sig. elim (Option-cases (s.saved sig)) [
      | inl e ↦ ground (
        arith,
        e,
        h.acts sig,
        h.kept sig,
        restore_all-acts s.g_signals s sig (Installed-OnlyAccepted before s h),
      )
      | inr (old, e) ↦ ground (
        arith,
        e,
        h.acts sig,
        h.kept sig,
        restore_all-acts s.g_signals s sig (Installed-OnlyAccepted before s h),
      )
    ]),
    (λ sig. ground (arith, h.kept sig, restore_all-saved s.g_signals s sig)),
  )

  install_all-Installed :
      (before : ℤ → Action) (sigs : List (ℤ × Text)) (s : Signals)
      → Distinct sigs
      → IsClean before s
      → Installed before sigs (install_all accepts false sigs s)
  install_all-Installed before sigs s d c = record {
    acts = λ sig. ground (arith, install_all-acts sigs s sig, c.0 sig);
    kept = λ sig. ground (arith, install_all-saved sigs s sig d, c.0 sig, c.1 sig);
  }

  -- The first installation, in a process where nothing is saved: the listed signals that the system
  -- accepts get the handler of this library, and their old actions are saved.
  pub install-Installed :
      (s : Signals)
      → Distinct s.g_signals
      → ((sig : ℤ) → s.saved sig ≡ none)
      → Installed s.system s.g_signals (install_signal_handler accepts false s)
  unfolding install_signal_handler
  install-Installed s d n = install_all-Installed s.system s.g_signals s d ((λ sig. refl), n)

  -- Where the handlers were installed once, for whatever signals, `overrideSetupSignals` leaves
  -- exactly the new ones that the system accepts with the handler of this library, and gives every
  -- other signal the action that it had at first.
  pub override-Installed :
      (before : ℤ → Action) (sigs : List (ℤ × Text)) (s : Signals)
      → Distinct sigs
      → Installed before s.g_signals s
      → Installed before sigs (override_setup_signals accepts false sigs s)
  unfolding override_setup_signals install_signal_handler
  override-Installed before sigs s d h =
      let c = restore_all-Installed before s h in
      install_all-Installed before sigs
        (record (restore_all accepts false s.g_signals s) { g_signals = sigs }) d c

  -- Where the handlers were installed once, the signal that ends the process meets the action that
  -- the system had for it at first, be the signal handled or not.
  pub exit-before :
      (before : ℤ → Action) (sig : ℤ) (s : Signals)
      → Installed before s.g_signals s
      → (exit_with_default_signal_handler accepts false sig s).0 ≡ before sig
  unfolding exit_with_default_signal_handler
  exit-before before sig s h = elim (Option-cases (s.saved sig)) [
    | inl e ↦ ground (
      arith,
      e,
      h.acts sig,
      h.kept sig,
      eqb_ℤ_refl sig,
      restore_one-acts sig s sig (Installed-OnlyAccepted before s h),
    )
    | inr (old, e) ↦ ground (
      arith,
      e,
      h.acts sig,
      h.kept sig,
      eqb_ℤ_refl sig,
      restore_one-acts sig s sig (Installed-OnlyAccepted before s h),
    )
  ]

  -- Where the handlers were installed once, a second installation with no restoring in between
  -- saves the handler of this library as the old action of every handled signal that the system
  -- accepts, so the signal that is to end the process meets that handler.
  pub install_twice :
      (before : ℤ → Action) (sig : ℤ) (s : Signals)
      → Distinct s.g_signals
      → listed sig s.g_signals ≡ true
      → accepts sig ≡ true
      → Installed before s.g_signals s
      → ((install_signal_handler accepts false s).saved sig ≡ some Action.ours)
        × ((exit_with_default_signal_handler accepts false sig
              (install_signal_handler accepts false s)).0
            ≡ Action.ours)
  unfolding exit_with_default_signal_handler install_signal_handler restore_signal_handler
  install_twice before sig s d l a h = (
    ground (arith, h.acts sig, install_all-saved s.g_signals s sig d),
    ground (
      arith,
      h.acts sig,
      install_all-acts s.g_signals s sig,
      install_all-saved s.g_signals s sig d,
      eqb_ℤ_refl sig,
    ),
  )
