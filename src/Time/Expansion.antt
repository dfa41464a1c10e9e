-- ===== src/Time/Expansion.antt =====
-- The loop of `localtime_formatted_fractions` against a plain recursion over the format.

use myg3log.Base.{
  ℕ, zero, suc, ◌+◌, ◌≤◌, ◌<◌, ◌≡◌, ◌∙◌, sym, ap, ap₂, arith, [], ◌∷◌, ◌++◌, none, some, length,
  take, drop, length-append, append_assoc, Option-cases, inl, inr, take-append-drop,
}
use myg3log.Base.Text.{Text}
use myg3log.Time.{
  to_string, fractional_of, get_fractional, index, find_identifier, replace, padding,
  fractions_loop, localtime_formatted_fractions, identifier_size,
}
use myg3log.Time.Fraction.{length-to_string, to_string-IsDigit}
use myg3log.Time.Reference.{
  expand, NoPercent, head_byte, expand-none, FirstIdentifier, expand_some, expand_at, find_behind,
  get_fractional_at, replace_at, digits-NoPercent, length-take_two, drop-NoPercent, zeroes-ge,
  length-drop-le,
}

loop_stop :
    (fuel ts n : ℕ) (buffer : Text)
    → find_identifier buffer n ≡ none
    → fractions_loop (suc fuel) ts n buffer ≡ some buffer
unfolding fractions_loop
loop_stop fuel ts n buffer e = rw (e, fractions_loop)

loop_step :
    (fuel ts n p : ℕ) (buffer : Text)
    → find_identifier buffer n ≡ some p
    → fractions_loop (suc fuel) ts n buffer
      ≡ fractions_loop fuel ts (p + identifier_size) (
          replace buffer p
            (identifier_size + padding (get_fractional buffer p))
            (to_string ts (get_fractional buffer p)))
unfolding fractions_loop
loop_step fuel ts n p buffer e = rw (e, fractions_loop)

-- The fraction that a "%f" before `b` asks for.
abbrev fraction_before : ℕ → Text → Text
fraction_before ts b = to_string ts (fractional_of (head_byte b))

abbrev rest_behind : Text → Text
rest_behind b = drop (padding (fractional_of (head_byte b))) b

-- One round at a "%f" behind the text `pre`.
loop_at :
    (fuel ts n : ℕ) (pre b : Text)
    → find_identifier (pre ++ (b'%' ∷ b'f' ∷ b)) n ≡ some (length pre)
    → fractions_loop (suc fuel) ts n (pre ++ (b'%' ∷ b'f' ∷ b))
      ≡ fractions_loop fuel ts
          (length pre + identifier_size)
          (pre ++ (fraction_before ts b ++ rest_behind b))
loop_at fuel ts n pre b e =
    loop_step fuel ts n (length pre) (pre ++ (b'%' ∷ b'f' ∷ b)) e
    ∙ rw (
      get_fractional_at pre b,
      replace_at pre b (fraction_before ts b) (padding (fractional_of (head_byte b))),
    )

-- The position behind the first two bytes of a text `v` that follows `pre`.
cut_two :
    (pre v s : Text)
    → 2 ≤ length v
    → (length (pre ++ take 2 v) ≡ length pre + 2)
      × ((pre ++ take 2 v) ++ (drop 2 v ++ s) ≡ pre ++ (v ++ s))
cut_two pre v s h = (
  omega (arith, length-append pre (take 2 v), length-take_two v h),
  rw (append_assoc pre (take 2 v), ← append_assoc (take 2 v) (drop 2 v) s, take-append-drop 2 v),
)

three : (a b c d : Text) → a ++ (b ++ (c ++ d)) ≡ (a ++ (b ++ c)) ++ d
three a b c d = simp append_assoc

-- What the loop is to do with a format `pre ++ mid ++ s` when it stands behind `pre`.
abbrev Expands : ℕ → ℕ → Text → Text → Text → Type 0
Expands fuel ts pre mid s =
    fractions_loop fuel ts (length pre) (pre ++ (mid ++ s)) ≡ some (pre ++ (mid ++ expand ts s))

-- The round that finds an identifier, given what the rounds after it do.
loop_found :
    (fuel ts i : ℕ) (pre mid s : Text)
    → NoPercent mid
    → index s ≡ some i
    → (r : FirstIdentifier ts s i)
    → let v = fraction_before ts r.behind in
      Expands fuel ts ((pre ++ (mid ++ r.before)) ++ take 2 v) (drop 2 v) (rest_behind r.behind)
      → Expands (suc fuel) ts pre mid s
loop_found fuel ts i pre mid s h e r next =
    ap (fractions_loop (suc fuel) ts (length pre)) buffer
    ∙ loop_at fuel ts (length pre) q r.behind found
    ∙ ap₂ (fractions_loop fuel ts) (sym cut.0) (sym cut.1)
    ∙ next
    ∙ ap some
        (assembled ∙ sym (three pre mid r.before _) ∙ ap (λ t. pre ++ (mid ++ t)) (sym r.copied))
  where
    q : Text
    q = pre ++ (mid ++ r.before)

    v : Text
    v = fraction_before ts r.behind

    two : 2 ≤ length v
    two = omega (
      arith,
      length-to_string ts (fractional_of (head_byte r.behind)),
      zeroes-ge (fractional_of (head_byte r.behind)),
    )

    cut :
        (length (q ++ take 2 v) ≡ length q + 2)
        × ((q ++ take 2 v) ++ (drop 2 v ++ rest_behind r.behind) ≡ q ++ (v ++ rest_behind r.behind))
    cut = cut_two q v (rest_behind r.behind) two

    buffer : pre ++ (mid ++ s) ≡ q ++ (b'%' ∷ b'f' ∷ r.behind)
    buffer = ap (λ t. pre ++ (mid ++ t)) r.split ∙ three pre mid r.before _

    place : length pre + (length mid + i) ≡ length q
    place = omega (arith, length-append pre (mid ++ r.before), length-append mid r.before, r.place)

    found : find_identifier (q ++ (b'%' ∷ b'f' ∷ r.behind)) (length pre) ≡ some (length q)
    found = rw (← buffer) (find_behind pre mid s h ∙ rw e (ap some place))

    assembled :
        (q ++ take 2 v) ++ (drop 2 v ++ expand ts (rest_behind r.behind))
        ≡ q ++ expand ts (b'%' ∷ b'f' ∷ r.behind)
    assembled =
        (cut_two q v (expand ts (rest_behind r.behind)) two).1
        ∙ ap (◌++◌ q) (sym (expand_at ts r.behind))

rest-lt :
    (ts i fuel : ℕ) (s : Text) (r : FirstIdentifier ts s i)
    → length s < suc fuel
    → length (rest_behind r.behind) < fuel
rest-lt ts i fuel s r h = omega (
  arith,
  ap length r.split,
  length-append r.before (b'%' ∷ b'f' ∷ r.behind),
  length-drop-le (padding (fractional_of (head_byte r.behind))) r.behind,
)

-- With enough fuel for `s` the loop leaves `pre` and `mid` alone and expands `s`.
loop-Expands :
    (fuel ts : ℕ) (pre mid s : Text) → NoPercent mid → length s < fuel → Expands fuel ts pre mid s
loop-Expands zero ts pre mid s h lt = elim lt [ ]
loop-Expands (suc fuel) ts pre mid s h lt = elim (Option-cases (index s)) [
  | inl e ↦
      rw (expand-none ts s e) (loop_stop fuel ts (length pre) _ (find_behind pre mid s h ∙ rw e))
  | inr (i, e) ↦
      let r = expand_some ts s i e in
      let v = fraction_before ts r.behind in
      loop_found fuel ts i pre mid s h e r (
        loop-Expands fuel ts ((pre ++ (mid ++ r.before)) ++ take 2 v) (drop 2 v)
          (rest_behind r.behind) (drop-NoPercent 2 v (digits-NoPercent v (to_string-IsDigit ts _)))
          (rest-lt ts i fuel s r lt))
]

-- With one more unit of fuel than the format has bytes, the loop ends and gives the expansion of
-- the format in one pass: each "%f", "%f3", "%f6" and "%f9" becomes its fraction.
pub fractions_loop-expand :
    (ts fuel : ℕ) (format : Text)
    → length format < fuel
    → fractions_loop fuel ts 0 format ≡ some (expand ts format)
fractions_loop-expand ts fuel format h = loop-Expands fuel ts [] [] format tt h

-- The text with the fractions filled in is the expansion of the format, for every format.
pub localtime_formatted_fractions-expand :
    (ts : ℕ) (format : Text) → localtime_formatted_fractions ts format ≡ expand ts format
unfolding localtime_formatted_fractions
localtime_formatted_fractions-expand ts format = rw (
  fractions_loop-expand ts (suc (length format)) format (omega arith),
  localtime_formatted_fractions,
)
