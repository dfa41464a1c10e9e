-- ===== src/Time/Tests.antt =====
-- Runs of the fractions of a time stamp.
use myg3log.Base.{◌≡◌, [], ◌∷◌}
use myg3log.Base.Text.{Text}
use myg3log.Time.{Fractional, to_string, localtime_formatted_fractions}
use myg3log.Time.Fraction.{IsFraction, to_string_lem}
use myg3log.Time.Reference.{expand}
use myg3log.Time.Expansion.{localtime_formatted_fractions-expand}

abbrev millis_format : Text
millis_format = b'%' ∷ b'f' ∷ b'3' ∷ b'%' ∷ b'S' ∷ []

to_string_lem_example :
    IsFraction 3 1000000 1234567890 (to_string 1234567890 Fractional.millisecond)
    × IsFraction 6 1000 1234567890 (to_string 1234567890 Fractional.microsecond)
    × IsFraction 9 1 1234567890 (to_string 1234567890 Fractional.nanosecond)
    × IsFraction 9 1 1234567890 (to_string 1234567890 Fractional.nanosecond_default)
to_string_lem_example = to_string_lem 1234567890

localtime_formatted_fractions-expand_example :
    localtime_formatted_fractions 1234567890 millis_format ≡ expand 1234567890 millis_format
localtime_formatted_fractions-expand_example =
    localtime_formatted_fractions-expand 1234567890 millis_format
