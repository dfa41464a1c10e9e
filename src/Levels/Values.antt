-- ===== src/Levels/Values.antt =====
-- src/g3log/loglevels.hpp: the members of `LEVELS` and `LoggingLevel`. The rest of the development
-- passes levels on as they are, which is what the copies give for texts without a NUL.
use myg3log.Base.{
  ◌≡◌, ◌↔◌, ◌∙◌, ap, ap₂, arith, Bool, true, false, not, ◌&&◌, ◌||◌, inl, inr, if◌then◌else◌,
  Bool-cases,
}
use myg3log.Base.Int.{eqb_ℤ, eqb_ℤ→eq, eqb_ℤ_refl}
use myg3log.Base.Text.{
  c_str, contains, equal_text, equal_text_same, equal_text-c_str, equal_text→eq,
}
use myg3log.Levels.{Level, LoggingLevel}

-- `LEVELS(const LEVELS &other)`.
unfoldable pub copy_level : Level → Level
copy_level other = record { value = other.value; text = c_str other.text }

-- `operator==(rhs)` and `operator!=(rhs)`.
unfoldable pub equal_level : Level → Level → Bool
equal_level this rhs = eqb_ℤ this.value rhs.value && equal_text this.text rhs.text

unfoldable pub unequal_level : Level → Level → Bool
unequal_level this rhs = not (eqb_ℤ this.value rhs.value) || not (equal_text this.text rhs.text)

-- `swap(first, second)`.
unfoldable pub swap : Level → Level → Level × Level
swap first second = (
  record { value = second.value; text = second.text },
  record { value = first.value; text = first.text },
)

-- `operator=(other)`: the argument is a copy.
unfoldable pub assign : Level → Level → Level
unfolding swap copy_level
assign this other = (swap this (copy_level other)).0

-- `LoggingLevel(const LoggingLevel &lvl)`.
unfoldable pub copy_logging_level : LoggingLevel → LoggingLevel
unfolding copy_level
copy_logging_level lvl = record { status = lvl.status; level = copy_level lvl.level }

-- `LoggingLevel(const LEVELS &lvl, bool enabled)`.
unfoldable pub logging_level : Level → Bool → LoggingLevel
unfolding copy_level
logging_level lvl enabled = record { status = enabled; level = copy_level lvl }

-- `operator=(other)`.
unfoldable pub assign_logging_level : LoggingLevel → LoggingLevel → LoggingLevel
unfolding assign
assign_logging_level this other = record {
  status = other.status;
  level = assign this.level other.level;
}

-- `operator==(rhs)`.
unfoldable pub equal_logging_level : LoggingLevel → LoggingLevel → Bool
unfolding equal_level
equal_logging_level this rhs =
    (if this.status then rhs.status else not rhs.status) && equal_level this.level rhs.level

-- `operator==` is equality of the value and of the text, and `operator!=` its negation.
pub equal_level_iff :
    (a b : Level)
    → ((equal_level a b ≡ true) ↔ (a ≡ b)) × (unequal_level a b ≡ not (equal_level a b))
unfolding equal_level unequal_level
equal_level_iff a b = (
  (
    λ e. elim (Bool-cases (eqb_ℤ a.value b.value)) [
      | inl h ↦
          ap₂ (λ v t. record { value = v; text = t }) (eqb_ℤ→eq a.value b.value h)
            (equal_text→eq a.text b.text (ground (arith, h)))
      | inr h ↦ absurd (ground (arith, h))
    ],
    λ e. rw e (ground (arith, eqb_ℤ_refl b.value, equal_text_same b.text)),
  ),
  ground arith,
)

-- A copy of a level whose text has no NUL is the level.
pub copy_level_same : (a : Level) → contains a.text 0 ≡ false → copy_level a ≡ a
unfolding copy_level
copy_level_same a h =
    ap (λ t. record { value = a.value; text = t })
      (equal_text→eq (c_str a.text) a.text (equal_text-c_str a.text ∙ ap not h))

-- After an assignment of a logging level, the two compare equal exactly when the text of the level
-- has no NUL: the copy of the level on the way takes the text up to its first NUL.
pub equal-assign_logging_level :
    (this other : LoggingLevel)
    → equal_logging_level (assign_logging_level this other) other
      ≡ not (contains other.level.text 0)
unfolding equal_logging_level assign_logging_level
equal-assign_logging_level this other =
    ground (arith, eqb_ℤ_refl other.level.value, equal_text-c_str other.level.text)
