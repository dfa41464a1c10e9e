-- ===== src/Time.antt =====
-- src/time.cpp and src/g3log/time.hpp: time stamps as text. A time point is the number of
-- nanoseconds since the epoch of its clock, which for the log is not before 1970.
pub mod Fraction
pub mod Reference
pub mod Expansion
pub mod Tests
use mathlib.Core.Option
use myg3log.Base.{
  ℕ, zero, suc, ◌+◌, ◌-◌, ◌/◌, ◌%◌, ◌^◌, Bool, true, false, ◌&&◌, List, [], ◌∷◌, ◌++◌, Option, none,
  some, if◌then◌else◌, ◌==◌, ltb, length, take, drop, replicate,
}
use myg3log.Base.Int.{ℤ}
use myg3log.Base.Text.{Text, codes, c_str}
use myg3log.Base.Decimal.{decimal}

-- `enum class Fractional`.
pub data Fractional : Type 0 where
  millisecond microsecond nanosecond nanosecond_default : Fractional

-- The byte at a position, `'\0'` behind the end.
unfoldable pub byte_at : Text → ℕ → ℕ
byte_at [] i = 0
byte_at (c ∷ s) zero = c
byte_at (c ∷ s) (suc i) = byte_at s i

-- The `switch` of `getFractional`.
unfoldable pub fractional_of : ℕ → Fractional
fractional_of ch =
    if ch == b'3'
    then Fractional.millisecond
    else if ch == b'6'
    then Fractional.microsecond
    else if ch == b'9'
    then Fractional.nanosecond
    else Fractional.nanosecond_default

-- `kFractionalIdentierSize`.
abbrev pub identifier_size : ℕ
identifier_size = 2

unfoldable pub get_fractional : Text → ℕ → Fractional
unfolding byte_at fractional_of
get_fractional format_buffer pos = fractional_of (
    if ltb (pos + identifier_size) (length format_buffer)
    then byte_at format_buffer (pos + identifier_size)
    else 0)

-- The number of digits, and the divisor that cuts the others off.
abbrev pub zeroes : Fractional → ℕ
zeroes Fractional.millisecond = 3
zeroes Fractional.microsecond = 6
zeroes Fractional.nanosecond = 9
zeroes Fractional.nanosecond_default = 9

abbrev pub digits_to_cut : Fractional → ℕ
digits_to_cut Fractional.millisecond = 1000000
digits_to_cut Fractional.microsecond = 1000
digits_to_cut Fractional.nanosecond = 1
digits_to_cut Fractional.nanosecond_default = 1

-- `to_string(ts, fractional)`.
unfoldable pub to_string : ℕ → Fractional → Text
to_string ts fractional =
    let value = decimal (ts % 1000000000 / digits_to_cut fractional) in
    replicate (zeroes fractional - length value) b'0' ++ value

-- The position of the first "%f" of a text.
unfoldable pub index : Text → Option ℕ
index [] = none
index (c ∷ []) = none
index (c ∷ d ∷ s) = if (c == b'%') && (d == b'f') then some 0 else Option.map suc (index (d ∷ s))

-- `format_buffer.find(kFractionalIdentier, pos)`.
unfoldable pub find_identifier : Text → ℕ → Option ℕ
find_identifier s pos = Option.map (◌+◌ pos) (index (drop pos s))

-- `format_buffer.replace(pos, count, value)` for a position inside the text.
unfoldable pub replace : Text → ℕ → ℕ → Text → Text
replace s pos count value = take pos s ++ (value ++ drop (pos + count) s)

abbrev pub padding : Fractional → ℕ
padding Fractional.nanosecond_default = 0
padding other = 1

-- The loop of `localtime_formatted_fractions`; `none` means that the fuel ran out.
unfoldable pub fractions_loop : ℕ → ℕ → ℕ → Text → Option Text
fractions_loop zero ts pos format_buffer = none
fractions_loop (suc fuel) ts pos format_buffer = elim (find_identifier format_buffer pos) [
  | none ↦ some format_buffer
  | some p ↦
      let type = get_fractional format_buffer p in
      fractions_loop fuel ts (p + identifier_size)
        (replace format_buffer p (identifier_size + padding type) (to_string ts type))
]

-- The fuel always suffices (Time.Expansion), so the text is never returned unchanged for want of
-- it.
unfoldable pub localtime_formatted_fractions : ℕ → Text → Text
unfolding fractions_loop
localtime_formatted_fractions ts format_buffer =
    elim (fractions_loop (suc (length format_buffer)) ts 0 format_buffer) [
      | none ↦ format_buffer
      | some text ↦ text
    ]

-- C's `struct tm`.
pub record Tm : Type 0 where
  pub tm_sec : ℕ
  pub tm_min : ℕ
  pub tm_hour : ℕ
  pub tm_mday : ℕ
  pub tm_mon : ℕ
  pub tm_year : ℤ
  pub tm_wday : ℕ
  pub tm_yday : ℕ
  pub tm_isdst : ℤ

-- What the C library and the clocks give: `localtime_r`; the bytes that `strftime` writes into a
-- buffer of the given size, none when it returns 0; and the two clocks at the first time stamp.
pub record Platform : Type 0 where
  pub localtime_r : ℕ → Tm
  pub strftime : ℕ → Text → Tm → Text
  pub hrs_now : ℕ
  pub sys_now : ℕ

module _ (platform : Platform) where
  -- `put_time`, in a build with `NDEBUG`, where the assertion is void.
  unfoldable pub put_time : Tm → Text → Text
  put_time tmb c_time_format =
      let buffer = platform.strftime 1024 c_time_format tmb in
      if length buffer == 0 then c_time_format else buffer

  -- `localtime`.
  unfoldable pub localtime : ℕ → Tm
  localtime ts = platform.localtime_r ts

  -- `localtime_formatted`; `to_time_t` counts whole seconds.
  unfoldable pub localtime_formatted : ℕ → Text → Text
  unfolding put_time localtime
  localtime_formatted ts time_format =
      put_time (localtime (ts / 1000000000)) (c_str (localtime_formatted_fractions ts time_format))

  -- `to_system_time`, for a reading that is not earlier than `hrs_now - sys_now`.
  unfoldable pub to_system_time : ℕ → ℕ
  to_system_time ts = platform.sys_now + ts - platform.hrs_now

-- `date_formatted` and `time_formatted`.
unfoldable pub date_formatted : Text
unfolding codes
date_formatted = codes "%m%d"

unfoldable pub time_formatted : Text
unfolding codes
time_formatted = codes "%H:%M:%S.%f6"
