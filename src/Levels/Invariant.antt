-- ===== src/Levels/Invariant.antt =====
-- The table stays ordered by its keys, and each entry stays under the value of its level.
use myg3log.Base.{
  ◌≡◌, refl, ◌≢◌, ◌∙◌, ap, Bool, true, false, List, [], ◌∷◌, arith, Bool-cases, Option-cases, inl,
  inr,
}
use myg3log.Base.Int.{ℤ, ltb_ℤ, eqb_ℤ, eqb_ℤ→eq}
use myg3log.Levels.{
  Level, LoggingLevel, LogLevels, find, insert, set, set_highest_at, set_highest_loop, set_highest,
  keys, add_log_level, get_status, Status, log_level, set_all, disable_all, enable_all, reset,
  log_level_defaults,
}
use myg3log.Levels.Laws.{IsKeyed, find-insert, find-set_all, get_status_lem, status_of}

abbrev Before : ℤ → LogLevels → Type 0
Before k [] = Unit {0}
Before k ((j, v) ∷ m) = ltb_ℤ k j ≡ true

-- Each key is less than the next.
abbrev pub IsSorted : LogLevels → Type 0
IsSorted [] = Unit {0}
IsSorted ((k, v) ∷ m) = Before k m × IsSorted m

pub record IsTable (m : LogLevels) : Type 0 where
  pub sorted : IsSorted m
  pub keyed : IsKeyed m

insert-Before :
    (i k : ℤ) (v : LoggingLevel) (m : LogLevels)
    → ltb_ℤ i k ≡ true
    → Before i m
    → Before i (insert k v m)
unfolding insert
insert-Before i k v [] h b = h
insert-Before i k v ((j, w) ∷ m) h b = ground arith

other_way : (k j : ℤ) → ltb_ℤ k j ≡ false → eqb_ℤ j k ≡ false → ltb_ℤ j k ≡ true
other_way k j e h = ground arith

insert-IsSorted : (k : ℤ) (v : LoggingLevel) (m : LogLevels) → IsSorted m → IsSorted (insert k v m)
unfolding insert
insert-IsSorted k v [] s = (tt, tt)
insert-IsSorted k v ((j, w) ∷ m) s = elim (Bool-cases (ltb_ℤ k j)) [
  | inl e ↦ rw (e, insert) (e, s)
  | inr e ↦ elim (Bool-cases (eqb_ℤ j k)) [
    | inl h ↦ rw (e, h) (rw (eqb_ℤ→eq j k h) at s)
    | inr h ↦ rw (e, h) (insert-Before j k v m (other_way k j e h) s.0, insert-IsSorted k v m s.1)
  ]
]

insert-IsKeyed :
    (k : ℤ) (v : LoggingLevel) (m : LogLevels)
    → v.level.value ≡ k
    → IsKeyed m
    → IsKeyed (insert k v m)
insert-IsKeyed k v m e keyed j w h = ground (arith, find-insert k j v m, keyed j w, eqb_ℤ→eq k j)

insert-IsTable :
    (k : ℤ) (v : LoggingLevel) (m : LogLevels)
    → v.level.value ≡ k
    → IsTable m
    → IsTable (insert k v m)
insert-IsTable k v m e t = record {
  sorted = insert-IsSorted k v m t.sorted;
  keyed = insert-IsKeyed k v m e t.keyed;
}

set-IsTable : (l : Level) (b : Bool) (m : LogLevels) → IsTable m → IsTable (set l b m)
unfolding set
set-IsTable l b m t = elim (Option-cases (find l.value m)) [
  | inl e ↦ rw (e, set) t
  | inr (v, e) ↦ rw (e, set) (insert-IsTable l.value (record { status = b; level = l }) m refl t)
]

set_highest_at-IsTable :
    (from : Level) (k : ℤ) (m : LogLevels) → IsTable m → IsTable (set_highest_at from k m)
unfolding set_highest_at
set_highest_at-IsTable from k m t = elim (Option-cases (find k m)) [
  | inl e ↦ rw (e, set_highest_at) t
  | inr (v, e) ↦ elim (Bool-cases (ltb_ℤ k from.value)) [
    | inl h ↦ rw (e, set_highest_at) (rw h (set-IsTable v.level false m t))
    | inr h ↦ rw (e, set_highest_at) (rw h (set-IsTable v.level true m t))
  ]
]

set_highest_loop-IsTable :
    (from : Level) (ks : List ℤ) (m : LogLevels) → IsTable m → IsTable (set_highest_loop from ks m)
unfolding set_highest_loop
set_highest_loop-IsTable from [] m t = t
set_highest_loop-IsTable from (k ∷ ks) m t =
    set_highest_loop-IsTable from ks (set_highest_at from k m) (set_highest_at-IsTable from k m t)

set_highest-IsTable : (from : Level) (m : LogLevels) → IsTable m → IsTable (set_highest from m)
unfolding set_highest
set_highest-IsTable from m t = elim (Option-cases (find from.value m)) [
  | inl e ↦ rw (e, set_highest) t
  | inr (v, e) ↦ rw (e, set_highest) (set_highest_loop-IsTable from (keys m) m t)
]

set_all-Before : (b : Bool) (i : ℤ) (m : LogLevels) → Before i m → Before i (set_all b m)
unfolding set_all
set_all-Before b i [] h = h
set_all-Before b i ((k, v) ∷ m) h = h

set_all-IsSorted : (b : Bool) (m : LogLevels) → IsSorted m → IsSorted (set_all b m)
unfolding set_all
set_all-IsSorted b [] s = s
set_all-IsSorted b ((k, v) ∷ m) s = (set_all-Before b k m s.0, set_all-IsSorted b m s.1)

set_all-IsTable : (b : Bool) (m : LogLevels) → IsTable m → IsTable (set_all b m)
set_all-IsTable b m t = record {
  sorted = set_all-IsSorted b m t.sorted;
  keyed = λ j v e. elim (Option-cases (find j m)) [
    | inl h ↦ ground (arith, h, e, find-set_all b j m)
    | inr (w, h) ↦ ground (arith, h, e, find-set_all b j m, t.keyed j w h)
  ];
}

defaults-IsKeyed : IsKeyed log_level_defaults
unfolding log_level_defaults find
defaults-IsKeyed j v e = ground arith

pub defaults-IsTable : IsTable log_level_defaults
unfolding log_level_defaults
defaults-IsTable = record {
  sorted = (refl, (refl, (refl, (refl, (tt, tt)))));
  keyed = defaults-IsKeyed;
}

-- The calls of the interface of dynamic logging.
pub data Call : Type 0 where
  adds : Level → Bool → Call
  sets : Level → Bool → Call
  raises : Level → Call
  disables_all enables_all resets : Call
  queries : Level → Call

unfoldable pub apply : Call → LogLevels → LogLevels
apply (adds l b) m = add_log_level l b m
apply (sets l b) m = set l b m
apply (raises l) m = set_highest l m
apply disables_all m = disable_all m
apply enables_all m = enable_all m
apply resets m = reset m
apply (queries l) m = (log_level true l m).1

-- A query is of a level that is in the table.
abbrev pub IsRegistered : Call → LogLevels → Type 0
IsRegistered (queries l) m = get_status l m ≢ Status.absent
IsRegistered other m = Unit {0}

log_level-IsTable :
    (l : Level) (m : LogLevels)
    → get_status l m ≢ Status.absent
    → IsTable m
    → IsTable (log_level true l m).1
unfolding log_level
log_level-IsTable l m h t = elim (Option-cases (find l.value m)) [
  | inl e ↦ absurd (h (get_status_lem l m ∙ ap status_of e))
  | inr (v, e) ↦ rw (e, log_level) t
]

-- Every call of the interface keeps the keys in ascending order and each entry under the value of
-- its level, unless it is a `logLevel` of a level that is not in the table.
pub apply-IsTable : (c : Call) (m : LogLevels) → IsRegistered c m → IsTable m → IsTable (apply c m)
unfolding apply add_log_level disable_all enable_all reset
apply-IsTable (adds l b) m r t = insert-IsTable l.value (record { status = b; level = l }) m refl t
apply-IsTable (sets l b) m r t = set-IsTable l b m t
apply-IsTable (raises l) m r t = set_highest-IsTable l m t
apply-IsTable disables_all m r t = set_all-IsTable false m t
apply-IsTable enables_all m r t = set_all-IsTable true m t
apply-IsTable resets m r t = defaults-IsTable
apply-IsTable (queries l) m r t = log_level-IsTable l m r t
