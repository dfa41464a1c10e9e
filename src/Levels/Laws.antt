-- ===== src/Levels/Laws.antt =====
-- What a lookup finds after each operation on the table.
use mathlib.Core.Option
use myg3log.Base.{
  ◌≡◌, refl, Bool, true, false, List, [], ◌∷◌, Option, none, some, arith, if◌then◌else◌,
  Option-cases, inl, inr, ◌||◌,
}
use myg3log.Base.Int.{ℤ, leb_ℤ, eqb_ℤ, eqb_ℤ→eq}
use myg3log.Levels.{
  Level, LoggingLevel, LogLevels, find, insert, set, set_highest_at, set_highest_loop, set_highest,
  keys, add_log_level, set_all, disable_all, enable_all, get_status, Status, default_level,
  log_level,
}

-- A lookup after a write.
pub find-insert :
    (k j : ℤ) (v : LoggingLevel) (m : LogLevels)
    → find j (insert k v m) ≡ (if eqb_ℤ k j then some v else find j m)
unfolding find insert
find-insert k j v [] = refl
find-insert k j v ((i, w) ∷ m) = ground (arith, find-insert k j v m)

-- Lookups at equal keys.
find_congr : (j k : ℤ) (m : LogLevels) → eqb_ℤ k j ≡ true → find k m ≡ find j m
find_congr j k m e = rw (eqb_ℤ→eq k j e)

-- A write through `set` touches a key that is there, and no other.
pub find-set :
    (l : Level) (b : Bool) (j : ℤ) (m : LogLevels)
    → find j (set l b m) ≡ (
        if eqb_ℤ l.value j
        then Option.map (λ _. record { status = b; level = l }) (find j m)
        else find j m)
unfolding set
find-set l b j m = elim (Option-cases (find l.value m)) [
  | inl e ↦ ground (arith, find_congr j l.value m, e)
  | inr (v, e) ↦
      ground (
        arith,
        find_congr j l.value m,
        e,
        find-insert l.value j (record { status = b; level = l }) m,
      )
]

-- The entry keeps its level, and is enabled or not by where its key lies.
abbrev pub raised : Level → ℤ → LoggingLevel → LoggingLevel
raised from k v = record v { status = leb_ℤ from.value k }

-- An entry stands under the value of its level.
abbrev pub IsKeyed : LogLevels → Type 0
IsKeyed m = (k : ℤ) (v : LoggingLevel) → find k m ≡ some v → v.level.value ≡ k

find-set_highest_at :
    (from : Level) (k j : ℤ) (m : LogLevels)
    → IsKeyed m
    → find j (set_highest_at from k m)
      ≡ (if eqb_ℤ k j then Option.map (raised from j) (find j m) else find j m)
unfolding set_highest_at
find-set_highest_at from k j m keyed = elim (Option-cases (find k m)) [
  | inl e ↦ ground (arith, find_congr j k m, e)
  | inr (v, e) ↦ ground (
    arith,
    e,
    keyed k v e,
    find_congr j k m,
    eqb_ℤ→eq k j,
    find-set v.level false j m,
    find-set v.level true j m,
  )
]

set_highest_at-IsKeyed :
    (from : Level) (k : ℤ) (m : LogLevels) → IsKeyed m → IsKeyed (set_highest_at from k m)
set_highest_at-IsKeyed from k m keyed j v e = elim (Option-cases (find j m)) [
  | inl h ↦ ground (arith, h, e, find-set_highest_at from k j m keyed)
  | inr (w, h) ↦ ground (arith, h, e, keyed j w h, find-set_highest_at from k j m keyed)
]

-- Is the key one of the list?
abbrev pub has_key : ℤ → List ℤ → Bool
has_key j [] = false
has_key j (k ∷ ks) = eqb_ℤ k j || has_key j ks

find-set_highest_loop :
    (from : Level) (ks : List ℤ) (j : ℤ) (m : LogLevels)
    → IsKeyed m
    → find j (set_highest_loop from ks m)
      ≡ (if has_key j ks then Option.map (raised from j) (find j m) else find j m)
unfolding set_highest_loop
find-set_highest_loop from [] j m keyed = refl
find-set_highest_loop from (k ∷ ks) j m keyed = elim (Option-cases (find j m)) [
  | inl h ↦ ground (
    arith,
    h,
    find-set_highest_at from k j m keyed,
    find-set_highest_loop from ks j (set_highest_at from k m)
        (set_highest_at-IsKeyed from k m keyed),
  )
  | inr (w, h) ↦ ground (
    arith,
    h,
    find-set_highest_at from k j m keyed,
    find-set_highest_loop from ks j (set_highest_at from k m)
        (set_highest_at-IsKeyed from k m keyed),
  )
]

has_key-keys : (j : ℤ) (m : LogLevels) → (if has_key j (keys m) then find j m else none) ≡ find j m
unfolding keys find
has_key-keys j [] = refl
has_key-keys j ((k, v) ∷ m) = ground (arith, has_key-keys j m)

-- `setHighest`: nothing happens when the level is not in the table; otherwise every entry stays,
-- with its level, and is enabled exactly when its key is at least the value of the level.
pub find-set_highest :
    (from : Level) (j : ℤ) (m : LogLevels)
    → IsKeyed m
    → find j (set_highest from m) ≡ elim (find from.value m) [
      | none ↦ find j m
      | some v ↦ Option.map (raised from j) (find j m)
    ]
unfolding set_highest
find-set_highest from j m keyed = elim (Option-cases (find from.value m)) [
  | inl e ↦ rw (e, set_highest) refl
  | inr (v, e) ↦ elim (Option-cases (find j m)) [
    | inl h ↦ ground (arith, h, e, has_key-keys j m, find-set_highest_loop from (keys m) j m keyed)
    | inr (w, h) ↦
        ground (arith, h, e, has_key-keys j m, find-set_highest_loop from (keys m) j m keyed)
  ]
]

-- What `getStatus` returns for an entry that `find` found or did not find.
abbrev pub status_of : Option LoggingLevel → Status
status_of none = Status.absent
status_of (some v) = if v.status then Status.enabled else Status.disabled

pub get_status_lem : (l : Level) (m : LogLevels) → get_status l m ≡ status_of (find l.value m)
unfolding get_status
get_status_lem l m = elim (Option-cases (find l.value m)) [
  | inl e ↦ rw (e, get_status)
  | inr (v, e) ↦ rw (e, get_status)
]

-- The status of a level after `setHighest from`, by those of `from` and of the level before.
abbrev pub highest_status : Level → Level → Status → Status → Status
highest_status from l Status.absent before = before
highest_status from l registered Status.absent = Status.absent
highest_status from l registered before =
    if leb_ℤ from.value l.value then Status.enabled else Status.disabled

-- In a table whose entries stand under the values of their levels, `setHighest(from)` changes
-- nothing when `from` is absent; otherwise an absent level stays absent, and any other level is
-- enabled if its value is at least that of `from`, and disabled if not.
pub get_status-set_highest :
    (from l : Level) (m : LogLevels)
    → IsKeyed m
    → get_status l (set_highest from m) ≡ highest_status from l (get_status from m) (get_status l m)
get_status-set_highest from l m keyed =
    rw (get_status_lem, get_status_lem from m, get_status_lem l m)
      (elim (Option-cases (find from.value m)) [
        | inl e ↦ ground (arith, e, find-set_highest from l.value m keyed)
        | inr (v, e) ↦ elim (Option-cases (find l.value m)) [
          | inl h ↦ ground (arith, h, e, find-set_highest from l.value m keyed)
          | inr (w, h) ↦ ground (arith, h, e, find-set_highest from l.value m keyed)
        ]
      ])

abbrev pub with_status : Bool → LoggingLevel → LoggingLevel
with_status b v = record v { status = b }

pub find-set_all :
    (b : Bool) (j : ℤ) (m : LogLevels)
    → find j (set_all b m) ≡ Option.map (with_status b) (find j m)
unfolding find set_all
find-set_all b j [] = refl
find-set_all b j ((k, v) ∷ m) = ground (arith, find-set_all b j m)

pub find-disable_all :
    (j : ℤ) (m : LogLevels) → find j (disable_all m) ≡ Option.map (with_status false) (find j m)
unfolding disable_all
find-disable_all j m = find-set_all false j m

pub find-enable_all :
    (j : ℤ) (m : LogLevels) → find j (enable_all m) ≡ Option.map (with_status true) (find j m)
unfolding enable_all
find-enable_all j m = find-set_all true j m

abbrev pub is_enabled : Status → Bool
is_enabled Status.enabled = true
is_enabled other = false

-- The status of the level `j` once `logLevel(l)` has looked `l` up.
abbrev pub queried_status : Level → Level → Status → Status → Status
queried_status l j Status.absent before = if eqb_ℤ l.value j.value then Status.disabled else before
queried_status l j registered before = before

-- With dynamic logging `logLevel(l)` is true exactly when `getStatus(l)` says enabled. The query
-- registers an absent level as disabled, and leaves the status of every other level as it was.
pub log_level-get_status :
    (l j : Level) (m : LogLevels)
    → ((log_level true l m).0 ≡ is_enabled (get_status l m))
      × (get_status j (log_level true l m).1 ≡ queried_status l j (get_status l m) (get_status j m))
unfolding log_level
log_level-get_status l j m = elim (Option-cases (find l.value m)) [
  | inl e ↦ ground (
    arith,
    e,
    get_status_lem l m,
    get_status_lem j m,
    get_status_lem j (insert l.value default_level m),
    find-insert l.value j.value default_level m,
  )
  | inr (v, e) ↦ ground (arith, e, get_status_lem l m, get_status_lem j m)
]

-- `addLogLevel` registers the level with the given status and leaves every other one alone.
pub get_status-add_log_level :
    (l j : Level) (b : Bool) (m : LogLevels)
    → get_status j (add_log_level l b m) ≡ (
        if eqb_ℤ l.value j.value
        then if b then Status.enabled else Status.disabled
        else get_status j m)
unfolding add_log_level
get_status-add_log_level l j b m = ground (
  arith,
  get_status_lem j m,
  get_status_lem j (insert l.value (record { status = b; level = l }) m),
  find-insert l.value j.value (record { status = b; level = l }) m,
)
