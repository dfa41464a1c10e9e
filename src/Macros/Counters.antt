-- ===== src/Macros/Counters.antt =====
-- src/g3log/g3log.hpp: which passes of a place with a counter are logged.
use myg3log.Base.{
  ℕ, zero, suc, ◌+◌, ◌-◌, ◌*◌, ◌≤◌, ◌<◌, ◌≡◌, refl, subst, ◌∙◌, arith, Bool, true, false,
  if◌then◌else◌, ◌==◌, ltb, leb, ◌⊎◌, inl, inr,
}
use myg3log.Levels.{Level, LogLevels, log_level}
use myg3log.Macros.{Site, new_site, glog_log_every_n, glog_log_if_every_n, log_first_n}

-- The state of a place after a number of passes of a macro.
abbrev pub passes :
    (Site → LogLevels → Bool × Site × LogLevels) → ℕ → Site × LogLevels → Site × LogLevels
passes macro zero now = now
passes macro (suc k) (site, levels) = (let r = macro site levels in passes macro k (r.1, r.2))

passes-add :
    (macro : Site → LogLevels → Bool × Site × LogLevels) (a b : ℕ) (now : Site × LogLevels)
    → passes macro (a + b) now ≡ passes macro b (passes macro a now)
passes-add macro zero b now = let e : 0 + b ≡ b = omega arith in rw e refl
passes-add macro (suc a) b (site, levels) =
    let e : suc a + b ≡ suc (a + b) = omega arith in
    let r = macro site levels in rw e (passes-add macro a b (r.1, r.2))

module _ (dynamic : Bool) (level : Level) (levels : LogLevels)
    (on : log_level dynamic level levels ≡ (true, levels)) where
  -- The levels, and the counter `m`.
  record At (m : ℕ) (now : Site × LogLevels) : Type 0 where
    counter : now.0.occurrences_mod_n ≡ m
    same_levels : now.1 ≡ levels

  abbrev every : ℕ → Site → LogLevels → Bool × Site × LogLevels
  every n = glog_log_every_n dynamic level n

  abbrev next : ℕ → ℕ → ℕ
  next n m = if ltb n (m + 1) then m + 1 - n else m + 1

  every_n-step :
      (n m : ℕ) (now : Site × LogLevels)
      → At m now
      → let r = every n now.0 now.1 in (r.0 ≡ (next n m == 1)) × At (next n m) (r.1, r.2)
  unfolding glog_log_every_n
  every_n-step n m (site, l) a = (
    ground (arith, a.counter, a.same_levels, on),
    record {
      counter = ground (arith, a.counter, a.same_levels, on);
      same_levels = ground (arith, a.counter, a.same_levels, on);
    },
  )

  -- Counting from 0 or `n` up to at most `n`.
  every_n-count :
      (n r m : ℕ) (now : Site × LogLevels)
      → m + r ≤ n
      → At m now
      → At (m + r) (passes (every n) r now)
  every_n-count n zero m now h a = let e : m + 0 ≡ m = omega arith in rw e a
  every_n-count n (suc r) m (site, l) h a =
      let s = every_n-step n m (site, l) a in
      let e : next n m ≡ m + 1 = ground arith in
      let f : m + suc r ≡ m + 1 + r = omega arith in
      let x = every n site l in
      rw f (every_n-count n r (m + 1) (x.1, x.2) (omega arith) (subst (λ k. At k (x.1, x.2)) e s.1))

  Start : ℕ → Site × LogLevels → Type 0
  Start n now = At 0 now ⊎ At n now

  every_n-round :
      (n r : ℕ) (now : Site × LogLevels)
      → r < n
      → Start n now
      → At (suc r) (passes (every n) (suc r) now)
  unfolding Start
  every_n-round n r now h (inl a) =
      let e : 0 + suc r ≡ suc r = omega arith in
      subst (λ k. At k (passes (every n) (suc r) now)) e
        (every_n-count n (suc r) 0 now (omega arith) a)
  every_n-round n r (site, l) h (inr a) =
      let s = every_n-step n n (site, l) a in
      let e : next n n ≡ 1 = ground arith in
      let x = every n site l in
      let f : 1 + r ≡ suc r = omega arith in
      subst (λ k. At k (passes (every n) (suc r) (site, l))) f
        (every_n-count n r 1 (x.1, x.2) (omega arith) (subst (λ k. At k (x.1, x.2)) e s.1))

  every_n-rounds :
      (n q : ℕ) (now : Site × LogLevels)
      → 0 < n
      → Start n now
      → Start n (passes (every n) (q * n) now)
  unfolding Start
  every_n-rounds n zero now h a = let e : 0 * n ≡ 0 = omega arith in rw e a
  every_n-rounds zero (suc q) now h a = absurd (omega arith)
  every_n-rounds (suc n) (suc q) now h a =
      let e : suc q * suc n ≡ suc n + q * suc n = omega arith in
      rw (e, passes-add (every (suc n)) (suc n) (q * suc n) now)
        (every_n-rounds (suc n) q _ h (inr (every_n-round (suc n) n now (omega arith) a)))

  -- While the level is on, pass `k` of `LOG_EVERY_N` with an `n` above 0, counted from 0, is
  -- logged if and only if `k` is a multiple of `n`: `k` is `q * n + r` with `r` below `n`.
  pub every_n_lem :
      (n q r : ℕ)
      → r < n
      → let now = passes (glog_log_every_n dynamic level n) (q * n + r) (new_site, levels) in
        (glog_log_every_n dynamic level n now.0 now.1).0 ≡ (r == 0)
  unfolding Start
  every_n_lem n q r h =
      let start : Start n (new_site, levels) =
        inl (record { counter = refl; same_levels = refl }) in
      let rounds = every_n-rounds n q (new_site, levels) (omega arith) start in
      rw (passes-add (every n) (q * n) r (new_site, levels))
        (last r (passes (every n) (q * n) (new_site, levels)) h rounds)
    where
      last :
          (r : ℕ) (now : Site × LogLevels)
          → r < n
          → Start n now
          → (let end = passes (every n) r now in (every n end.0 end.1).0) ≡ (r == 0)
      last zero now h (inl a) = (every_n-step n 0 now a).0 ∙ ground arith
      last zero now h (inr a) = (every_n-step n n now a).0 ∙ ground arith
      last (suc r) now h a =
          (every_n-step n (suc r) _ (every_n-round n r now (omega arith) a)).0 ∙ ground arith

  -- The levels, and the number of passes that `LOG_FIRST_N` has counted, at most `n + 1`.
  record Counted (m : ℕ) (now : Site × LogLevels) : Type 0 where
    counter : now.0.occurrences ≡ m
    same_levels : now.1 ≡ levels

  first_n-step :
      (n m : ℕ) (now : Site × LogLevels)
      → Counted m now
      → let r = log_first_n dynamic level n now.0 now.1 in
        (r.0 ≡ ltb m n) × Counted (if leb m n then m + 1 else m) (r.1, r.2)
  unfolding log_first_n
  first_n-step n m (site, l) a = (
    ground (arith, a.counter, a.same_levels, on),
    record {
      counter = ground (arith, a.counter, a.same_levels, on);
      same_levels = ground (arith, a.counter, a.same_levels, on);
    },
  )

  first_n-from :
      (n k m : ℕ) (now : Site × LogLevels)
      → Counted m now
      → let end = passes (log_first_n dynamic level n) k now in
        (log_first_n dynamic level n end.0 end.1).0 ≡ ltb (m + k) n
  first_n-from n zero m now a = (first_n-step n m now a).0 ∙ ground arith
  first_n-from n (suc k) m (site, l) a =
      let s = first_n-step n m (site, l) a in
      let x = log_first_n dynamic level n site l in
      first_n-from n k (if leb m n then m + 1 else m) (x.1, x.2) s.1 ∙ ground arith

  -- While the level is on, pass `k` of `LOG_FIRST_N`, counted from 0, is logged if and only if `k`
  -- is below `n`, however many passes there are.
  pub first_n_lem :
      (n k : ℕ)
      → let now = passes (log_first_n dynamic level n) k (new_site, levels) in
        (log_first_n dynamic level n now.0 now.1).0 ≡ ltb k n
  first_n_lem n k =
      first_n-from n k 0 (new_site, levels) (record { counter = refl; same_levels = refl })
      ∙ ground arith

-- `LOG_EVERY_N` and `LOG_IF_EVERY_N` at a level that is off: the first logs nothing on any pass,
-- but the second, with an `n` above 0, logs its first pass with a true condition.
pub if_every_n_ignores_level :
    (dynamic : Bool) (level : Level) (levels : LogLevels) (n : ℕ) (site : Site)
    → log_level dynamic level levels ≡ (false, levels)
    → 0 < n
    → ((glog_log_every_n dynamic level n site levels).0 ≡ false)
      × ((glog_log_if_every_n dynamic level true n new_site levels).0 ≡ true)
unfolding glog_log_every_n glog_log_if_every_n
if_every_n_ignores_level dynamic level levels n site off h = (ground (arith, off), ground arith)
