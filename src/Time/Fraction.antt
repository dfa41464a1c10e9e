-- ===== src/Time/Fraction.antt =====
-- The fraction of a second as text.

use myg3log.Base.{
  ℕ, zero, suc, ◌-◌, ◌/◌, ◌%◌, ◌^◌, ◌≤◌, ◌<◌, ◌≡◌, refl, arith, length, length-append,
  length-replicate, replicate, All, All-append,
}
use myg3log.Base.Text.{Text}
use myg3log.Base.Decimal.{
  decimal, decimal-length, decimal-IsDigit, value_from-decimal, IsDigit, value_from,
  value_from-append,
}
use myg3log.Time.{Fractional, zeroes, digits_to_cut, to_string}

cut-lt : (ts : ℕ) (f : Fractional) → ts % 1000000000 / digits_to_cut f < 10 ^ zeroes f
cut-lt ts Fractional.millisecond = omega arith
cut-lt ts Fractional.microsecond = omega arith
cut-lt ts Fractional.nanosecond = omega arith
cut-lt ts Fractional.nanosecond_default = omega arith

size-le :
    (ts : ℕ) (f : Fractional) → length (decimal (ts % 1000000000 / digits_to_cut f)) ≤ zeroes f
size-le ts Fractional.millisecond = decimal-length _ 2 (cut-lt ts Fractional.millisecond)
size-le ts Fractional.microsecond = decimal-length _ 5 (cut-lt ts Fractional.microsecond)
size-le ts Fractional.nanosecond = decimal-length _ 8 (cut-lt ts Fractional.nanosecond)
size-le ts Fractional.nanosecond_default =
    decimal-length _ 8 (cut-lt ts Fractional.nanosecond_default)

replicate-IsDigit : (n : ℕ) → All IsDigit (replicate n b'0')
replicate-IsDigit zero = tt
replicate-IsDigit (suc n) = ((omega arith, omega arith), replicate-IsDigit n)

value_from-replicate : (n : ℕ) → value_from 0 (replicate n b'0') ≡ 0
value_from-replicate zero = refl
value_from-replicate (suc n) = value_from-replicate n

pub length-to_string : (ts : ℕ) (f : Fractional) → length (to_string ts f) ≡ zeroes f
unfolding to_string
length-to_string ts f = omega (
  arith,
  length-append (replicate (zeroes f - length (decimal (ts % 1000000000 / digits_to_cut f))) b'0')
      (decimal (ts % 1000000000 / digits_to_cut f)),
  length-replicate {A = ℕ} (zeroes f - length (decimal (ts % 1000000000 / digits_to_cut f))) b'0',
  size-le ts f,
)

pub to_string-IsDigit : (ts : ℕ) (f : Fractional) → All IsDigit (to_string ts f)
unfolding to_string
to_string-IsDigit ts f = All-append IsDigit _ _ (replicate-IsDigit _) (decimal-IsDigit _)

value_from-to_string :
    (ts : ℕ) (f : Fractional) → value_from 0 (to_string ts f) ≡ ts % 1000000000 / digits_to_cut f
unfolding to_string
value_from-to_string ts f =
    rw (value_from-append (replicate (zeroes f - length digits) b'0') digits 0)
      (rw value_from-replicate (value_from-decimal cut))
  where
    cut : ℕ
    cut = ts % 1000000000 / digits_to_cut f

    digits : Text
    digits = decimal cut

-- A text of so many digits that spells the part of a second of the time `ts`, in units of so many
-- nanoseconds.
abbrev pub IsFraction : (digits unit ts : ℕ) → Text → Type 0
IsFraction digits unit ts text =
    (length text ≡ digits) × All IsDigit text × (value_from 0 text ≡ ts % 1000000000 / unit)

-- The fraction has exactly 3 digits that spell the milliseconds into the second, 6 that spell the
-- microseconds, or 9 that spell the nanoseconds, as is asked; by default it is the last.
pub to_string_lem :
    (ts : ℕ)
    → IsFraction 3 1000000 ts (to_string ts Fractional.millisecond)
      × IsFraction 6 1000 ts (to_string ts Fractional.microsecond)
      × IsFraction 9 1 ts (to_string ts Fractional.nanosecond)
      × IsFraction 9 1 ts (to_string ts Fractional.nanosecond_default)
to_string_lem ts = (
  parts Fractional.millisecond,
  parts Fractional.microsecond,
  parts Fractional.nanosecond,
  parts Fractional.nanosecond_default,
)
  where
    parts : (f : Fractional) → IsFraction (zeroes f) (digits_to_cut f) ts (to_string ts f)
    parts f = (length-to_string ts f, to_string-IsDigit ts f, value_from-to_string ts f)
