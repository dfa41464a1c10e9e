-- ===== src/Levels.antt =====
-- src/loglevels.cpp and src/g3log/loglevels.hpp: the levels, the table of levels that dynamic
-- logging keeps (a `std::map` ordered by its `int` keys) and the operations on it.
pub mod Values
pub mod Laws
pub mod Invariant
pub mod Phantom
pub mod Tests
use myg3log.Base.{
  ℕ, ◌+◌, ◌≡◌, refl, Bool, true, false, not, List, [], ◌∷◌, ◌++◌, Option, none, some, if◌then◌else◌,
  map,
}
use myg3log.Base.Int.{ℤ, pos, ltb_ℤ, leb_ℤ, eqb_ℤ}
use myg3log.Base.Text.{Text, codes}
use myg3log.Base.Decimal.{int_to_string}

-- `struct LEVELS`. The copies that its constructors make are the value itself here.
pub record Level : Type 0 where
  pub value : ℤ
  pub text : Text

abbrev pub debug : Level
debug = record { value = pos 100; text = codes "DEBUG" }

abbrev pub info : Level
info = record { value = pos 300; text = codes "INFO" }

abbrev pub warning : Level
warning = record { value = pos 500; text = codes "WARNING" }

abbrev pub error : Level
error = record { value = pos 800; text = codes "ERROR" }

abbrev pub fatal : Level
fatal = record { value = pos 1000; text = codes "FATAL" }

-- The internal levels of `namespace internal`.
abbrev pub contract : Level
contract = record { value = pos 2000; text = codes "CONTRACT" }

abbrev pub fatal_signal : Level
fatal_signal = record { value = pos 2001; text = codes "FATAL_SIGNAL" }

abbrev pub fatal_exception : Level
fatal_exception = record { value = pos 2002; text = codes "FATAL_EXCEPTION" }

unfoldable pub was_fatal : Level → Bool
was_fatal level = leb_ℤ fatal.value level.value

-- `struct LoggingLevel`.
pub record LoggingLevel : Type 0 where
  pub status : Bool
  pub level : Level

-- The constructors with one argument enable the level, and the default one is INFO, disabled.
abbrev pub enabled_level : Level → LoggingLevel
enabled_level level = record { status = true; level = level }

abbrev pub default_level : LoggingLevel
default_level = record { status = false; level = info }

-- `std::map<int, LoggingLevel>` in the order of its keys.
abbrev pub LogLevels : Type 0
LogLevels = List (ℤ × LoggingLevel)

-- `m.find(k)`.
unfoldable pub find : ℤ → LogLevels → Option LoggingLevel
find k [] = none
find k ((j, v) ∷ m) = if eqb_ℤ j k then some v else find k m

-- `m[k] = v`.
unfoldable pub insert : ℤ → LoggingLevel → LogLevels → LogLevels
insert k v [] = (k, v) ∷ []
insert k v ((j, w) ∷ m) =
    if ltb_ℤ k j
    then (k, v) ∷ (j, w) ∷ m
    else if eqb_ℤ j k
    then (k, v) ∷ m
    else (j, w) ∷ insert k v m

unfoldable pub log_level_defaults : LogLevels
log_level_defaults =
    (debug.value, enabled_level debug)
    ∷ (info.value, enabled_level info)
    ∷ (warning.value, enabled_level warning)
    ∷ (error.value, enabled_level error)
    ∷ (fatal.value, enabled_level fatal)
    ∷ []

-- `only_change_at_initialization::addLogLevel(lvl, enabled)`.
unfoldable pub add_log_level : Level → Bool → LogLevels → LogLevels
add_log_level lvl enabled m = insert lvl.value (record { status = enabled; level = lvl }) m

-- `only_change_at_initialization::addLogLevel(level)`.
unfoldable pub add_enabled : Level → LogLevels → LogLevels
unfolding add_log_level
add_enabled level m = add_log_level level true m

-- `only_change_at_initialization::reset()`.
unfoldable pub reset : LogLevels → LogLevels
unfolding log_level_defaults
reset m = log_level_defaults

-- `log_levels::set(level, enabled)`.
unfoldable pub set : Level → Bool → LogLevels → LogLevels
set level enabled m = elim (find level.value m) [
  | none ↦ m
  | some v ↦ insert level.value (record { status = enabled; level = level }) m
]

unfoldable pub disable : Level → LogLevels → LogLevels
unfolding set
disable level m = set level false m

unfoldable pub enable : Level → LogLevels → LogLevels
unfolding set
enable level m = set level true m

-- One round of the loop of `setHighest`, at the entry that stands under the key `k`.
unfoldable pub set_highest_at : Level → ℤ → LogLevels → LogLevels
unfolding disable enable
set_highest_at enabled_from k m = elim (find k m) [
  | none ↦ m
  | some v ↦ if ltb_ℤ k enabled_from.value then disable v.level m else enable v.level m
]

-- The range-for over the map. `set` changes entries and adds no key, so the keys are those
-- at the start; each entry is read when the loop comes to it.
unfoldable pub set_highest_loop : Level → List ℤ → LogLevels → LogLevels
set_highest_loop enabled_from [] m = m
set_highest_loop enabled_from (k ∷ ks) m =
    set_highest_loop enabled_from ks (set_highest_at enabled_from k m)

unfoldable pub keys : LogLevels → List ℤ
keys [] = []
keys ((k, v) ∷ m) = k ∷ keys m

-- `log_levels::setHighest(enabledFrom)`.
unfoldable pub set_highest : Level → LogLevels → LogLevels
set_highest enabled_from m = elim (find enabled_from.value m) [
  | none ↦ m
  | some v ↦ set_highest_loop enabled_from (keys m) m
]

unfoldable pub set_all : Bool → LogLevels → LogLevels
set_all b [] = []
set_all b ((k, v) ∷ m) = (k, record v { status = b }) ∷ set_all b m

-- `log_levels::disableAll()`.
unfoldable pub disable_all : LogLevels → LogLevels
unfolding set_all
disable_all m = set_all false m

-- `log_levels::enableAll()`.
unfoldable pub enable_all : LogLevels → LogLevels
unfolding set_all
enable_all m = set_all true m

-- `std::to_string(bool)` prints the `int` that the flag is promoted to.
abbrev bool_to_string : Bool → Text
bool_to_string b = int_to_string (if b then pos 1 else pos 0)

-- `log_levels::to_string(levelsToPrint)`.
unfoldable pub to_string : LogLevels → Text
to_string [] = []
to_string ((k, v) ∷ m) =
    (codes "name: "
      ++ v.level.text
      ++ codes " level: "
      ++ int_to_string k
      ++ codes " status: "
      ++ bool_to_string v.status
      ++ codes "\n")
    ++ to_string m

-- `enum class status`.
pub data Status : Type 0 where
  absent enabled disabled : Status

-- `log_levels::getStatus(level)`.
unfoldable pub get_status : Level → LogLevels → Status
get_status level m = elim (find level.value m) [
  | none ↦ Status.absent
  | some v ↦ if v.status then Status.enabled else Status.disabled
]

-- `logLevel(log_level)`. With dynamic logging it reads through `operator[]`, which adds a
-- default entry under a key that is not there; without it every level is on.
unfoldable pub log_level : Bool → Level → LogLevels → Bool × LogLevels
log_level false level m = (true, m)
log_level true level m = elim (find level.value m) [
  | none ↦ (default_level.status, insert level.value default_level m)
  | some v ↦ (v.status, m)
]
