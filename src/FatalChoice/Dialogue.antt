-- ===== src/FatalChoice/Dialogue.antt =====
-- What the dialogue accepts.
use myg3log.Base.{
  ◌==◌, if◌then◌else◌, ℕ, zero, suc, ◌+◌, ◌-◌, ◌*◌, ◌<◌, ◌≤◌, ◌≡◌, ◌≢◌, refl, sym, ◌∙◌, ap, subst,
  arith, Bool, true, false, List, [], ◌∷◌, ◌++◌, Option, none, some, All, Option-cases, List-cases,
  inl, inr, ◌||◌, not, ◌&&◌,
}
use myg3log.Base.Int.{ℤ, pos, negsuc, leb_ℤ, ltb_ℤ}
use myg3log.Base.Text.{Text, codes, equal_text}
use myg3log.Base.Decimal.{
  decimal, int_to_string, IsDigit, value_from, value_from-decimal, decimal-IsDigit,
}
use myg3log.FatalChoice.{
  DeathFunction, Execution, exit_function, to_lower, is_digit, read_digits, read_signed, stoi,
  choice_of_fatal_exit, choose_fatal_exit, execute_death_function, ask_for_async_death,
}

-- Digits with other bytes behind them, the first of which is no digit.
abbrev pub Ends : Text → Type 0
Ends [] = Unit
Ends (c ∷ s) = is_digit c ≡ false

read_digits_lem :
    (n : ℕ) (digits behind : Text)
    → All IsDigit digits
    → Ends behind
    → read_digits (some n) (digits ++ behind) ≡ some (value_from n digits)
unfolding read_digits
read_digits_lem n [] [] d e = refl
read_digits_lem n [] (c ∷ behind) d e = ground (arith, e)
read_digits_lem n (c ∷ digits) behind d e =
    let one : is_digit c ≡ true = ground (arith, d.0) in
    ground (arith, one, read_digits_lem (n * 10 + (c - b'0')) digits behind d.1 e)

read_digits_start :
    (c : ℕ) (digits behind : Text)
    → All IsDigit (c ∷ digits)
    → Ends behind
    → read_digits none (c ∷ (digits ++ behind)) ≡ some (value_from 0 (c ∷ digits))
unfolding read_digits
read_digits_start c digits behind d e =
    let one : is_digit c ≡ true = ground (arith, d.0) in
    ground (arith, one, read_digits_lem (0 + (c - b'0')) digits behind d.1 e)

decimal_not_empty : (n : ℕ) → decimal n ≢ []
unfolding decimal
decimal_not_empty zero e = absurd cc
decimal_not_empty (suc n) e =
    let clash : 0 ≡ suc n = sym (ap (value_from 0) e) ∙ value_from-decimal (suc n) in omega arith

-- The digits of a number, with other bytes behind them.
read-decimal :
    (n : ℕ) (behind : Text) → Ends behind → read_digits none (decimal n ++ behind) ≡ some n
read-decimal n behind e = elim (List-cases (decimal n)) [
  | inl h ↦ absurd (decimal_not_empty n h)
  | inr (c, digits, h) ↦
      ap (λ t. read_digits none (t ++ behind)) h
      ∙ read_digits_start c digits behind (subst (All IsDigit) h (decimal-IsDigit n)) e
      ∙ ap some (sym (ap (value_from 0) h) ∙ value_from-decimal n)
]

-- An `int` of 32 bits.
abbrev pub IsInt : ℤ → Type 0
IsInt (pos n) = n < 2147483648
IsInt (negsuc n) = n < 2147483648

stoi-digits :
    (c : ℕ) (s : Text) (n : ℕ)
    → is_digit c ≡ true
    → read_digits none (c ∷ s) ≡ some n
    → n < 2147483648
    → stoi (c ∷ s) ≡ some (pos n)
unfolding stoi read_signed
stoi-digits c s n d e h = ground (arith, d, e, h)

-- `std::stoi` reads what `std::to_string` writes, whatever stands behind it that is no digit.
pub stoi-int_to_string :
    (i : ℤ) (behind : Text) → IsInt i → Ends behind → stoi (int_to_string i ++ behind) ≡ some i
unfolding int_to_string stoi read_signed
stoi-int_to_string (pos n) behind h e = elim (List-cases (decimal n)) [
  | inl none_there ↦ absurd (decimal_not_empty n none_there)
  | inr (c, digits, f) ↦
      let d = subst (All IsDigit) f (decimal-IsDigit n) in
      let read : read_digits none (c ∷ (digits ++ behind)) ≡ some n =
        ap (λ t. read_digits none (t ++ behind)) (sym f) ∙ read-decimal n behind e in
      ap (λ t. stoi (t ++ behind)) f
      ∙ stoi-digits c (digits ++ behind) n (ground (arith, d.0)) read h
]
stoi-int_to_string (negsuc n) behind h e = ground (arith, h, read-decimal (suc n) behind e)

-- A line that the dialogue takes: a number from 1 to 14.
abbrev pub IsChoice : ℤ → Type 0
IsChoice choice = (leb_ℤ choice (pos 0) || ltb_ℤ (pos 14) choice) ≡ false

-- A line that it refuses: no number, or one that is out of range.
abbrev pub is_refused : Text → Bool
is_refused line = elim (stoi line) [
  | none ↦ true
  | some choice ↦ leb_ℤ choice (pos 0) || ltb_ℤ (pos 14) choice
]

abbrev refuse : Text → Option (ℤ × List Text × List Text) → Option (ℤ × List Text × List Text)
refuse option none = none
refuse option (some (choice, refused, rest)) = some (choice, option ∷ refused, rest)

choice_refused :
    (option : Text) (lines : List Text)
    → is_refused option ≡ true
    → choice_of_fatal_exit (option ∷ lines) ≡ refuse option (choice_of_fatal_exit lines)
unfolding choice_of_fatal_exit
choice_refused option lines e = elim (Option-cases (stoi option)) [
  | inl f ↦ elim (Option-cases (choice_of_fatal_exit lines)) [
    | inl g ↦ ground (arith, f, g)
    | inr (r, g) ↦ ground (arith, f, g)
  ]
  | inr (choice, f) ↦
      let out : (leb_ℤ choice (pos 0) || ltb_ℤ (pos 14) choice) ≡ true = ground (arith, f, e) in
      elim (Option-cases (choice_of_fatal_exit lines)) [
        | inl g ↦ ground (arith, f, g, out)
        | inr (r, g) ↦ ground (arith, f, g, out)
      ]
]

choice_taken :
    (option : Text) (lines : List Text) (choice : ℤ)
    → stoi option ≡ some choice
    → IsChoice choice
    → choice_of_fatal_exit (option ∷ lines) ≡ some (choice, [], lines)
unfolding choice_of_fatal_exit
choice_taken option lines choice f e = ground (arith, f, e)

choice_of_fatal_exit_lem :
    (bad : List Text) (good : Text) (lines : List Text) (choice : ℤ)
    → All (λ l. is_refused l ≡ true) bad
    → stoi good ≡ some choice
    → IsChoice choice
    → choice_of_fatal_exit (bad ++ good ∷ lines) ≡ some (choice, bad, lines)
choice_of_fatal_exit_lem [] good lines choice b g c = choice_taken good lines choice g c
choice_of_fatal_exit_lem (option ∷ bad) good lines choice b g c =
    choice_refused option (bad ++ good ∷ lines) b.0
    ∙ ap (refuse option) (choice_of_fatal_exit_lem bad good lines choice b.1 g c)

-- An answer that the question for a thread of its own refuses.
abbrev pub is_no_answer : Text → Bool
is_no_answer line =
    not (equal_text (codes "yes") (to_lower line)) && not (equal_text (codes "no") (to_lower line))

-- What is written for the answers that are refused, and for the last question.
abbrev pub questions : List Text → Text
questions [] = codes "Do you want to run the test in a separate thread? [yes/no]\n"
questions (l ∷ bad) =
    codes "Do you want to run the test in a separate thread? [yes/no]\n"
    ++ (codes "\nInvalid value: [" ++ to_lower l ++ codes "]\n\n\n")
    ++ questions bad

ask_lem :
    (bad : List Text) (answer : Text) (lines : List Text)
    → All (λ l. is_no_answer l ≡ true) bad
    → is_no_answer answer ≡ false
    → ask_for_async_death (bad ++ answer ∷ lines)
      ≡ some (equal_text (codes "yes") (to_lower answer), questions bad, lines)
unfolding ask_for_async_death
ask_lem [] answer lines b a = ground (arith, a)
ask_lem (l ∷ bad) answer lines b a = ground (arith, b.0, ask_lem bad answer lines b.1 a)

-- The function behind a number of the menu.
abbrev pub on_the_menu : ℕ → DeathFunction
on_the_menu n =
    if 1 == n
    then DeathFunction.raise_sigabrt
    else if 2 == n
    then DeathFunction.raise_sigfpe
    else if 3 == n
    then DeathFunction.raise_sigsegv
    else if 4 == n
    then DeathFunction.raise_sigill
    else if 5 == n
    then DeathFunction.raise_sigterm
    else if 6 == n
    then DeathFunction.division_by_zero
    else if 7 == n
    then DeathFunction.illegal_printf
    else if 8 == n
    then DeathFunction.out_of_bounds_array_indexing
    else if 9 == n
    then DeathFunction.access_violation
    else if 10 == n
    then DeathFunction.raise_sigabrt_and_access_violation
    else if 11 == n
    then DeathFunction.throw
    else if 12 == n
    then DeathFunction.failed_check
    else if 13 == n
    then DeathFunction.access_violation_x10000
    else if 14 == n
    then DeathFunction.seg_fault_attempt_x10000
    else DeathFunction.no_exit_function

-- What is called for a number: its function, on a thread of its own or not, and for the number 6 the
-- division by zero on the calling thread before.
abbrev pub Calls : Bool → ℕ → ℤ → Execution → Type 0
Calls own_thread n g x =
    (x.calls
      ≡ (if 6 == n then (false, DeathFunction.division_by_zero) ∷ [] else [])
        ++ (own_thread, on_the_menu n) ∷ [])
    × (x.g_should_be_zero ≡ (if 6 == n then pos 0 else g))

execute-Calls :
    (own_thread : Bool) (n : ℕ) (g : ℤ)
    → Calls own_thread n g (execute_death_function own_thread (pos n) g)
unfolding execute_death_function exit_function
execute-Calls own_thread n g = (ground arith, ground arith)

-- The user answers the first question, after answers that are neither yes nor no, and then types
-- lines that are refused and one that is a number from 1 to 14, with anything but a digit behind
-- it. The dialogue ends, and the function that has this number is called, from RaiseSIGABRT for 1 to
-- SegFaultAttempt_x10000 for 14, on a thread of its own if the answer was yes; for the number 6
-- gShouldBeZero is set to 0, and DivisionByZero is called on the calling thread before. The lines
-- behind are left.
pub choose_fatal_exit_lem :
    (unclear : List Text) (answer : Text) (bad : List Text) (n : ℕ) (behind : Text)
    (lines : List Text) (g_should_be_zero : ℤ)
    → All (λ l. is_no_answer l ≡ true) unclear
    → is_no_answer answer ≡ false
    → All (λ l. is_refused l ≡ true) bad
    → 1 ≤ n
    → n ≤ 14
    → Ends behind
    → (x : Execution) × (choose_fatal_exit
          (unclear ++ answer ∷ (bad ++ (int_to_string (pos n) ++ behind) ∷ lines))
          g_should_be_zero
        ≡ some (x, lines))
      × Calls (equal_text (codes "yes") (to_lower answer)) n g_should_be_zero x
unfolding choose_fatal_exit
choose_fatal_exit_lem unclear answer bad n behind lines g u a b low high e =
    let asked = ask_lem unclear answer (bad ++ (int_to_string (pos n) ++ behind) ∷ lines) u a in
    let chosen =
      choice_of_fatal_exit_lem bad (int_to_string (pos n) ++ behind) lines (pos n) b
        (stoi-int_to_string (pos n) behind (omega arith) e) (ground (arith, low, high)) in
    let own_thread = equal_text (codes "yes") (to_lower answer) in
    (
      execute_death_function own_thread (pos n) g,
      ground (arith, asked, chosen),
      execute-Calls own_thread n g,
    )
