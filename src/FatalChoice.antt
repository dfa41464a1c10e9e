-- ===== src/FatalChoice.antt =====
-- src/example/main_fatal_choice.cpp of the repository: the dialogue that chooses a fatal exit, and
-- what is then executed. The lines that the user types are a list; `none` stands for the loop that
-- goes on asking when they are at an end.
pub mod Dialogue
pub mod Functions
pub mod Deaths
pub mod Exits
pub mod LogFile
pub mod Threads
pub mod Tests
use myg3log.Base.{
  ℕ, zero, suc, ◌+◌, ◌-◌, ◌*◌, Bool, true, false, not, ◌&&◌, ◌||◌, List, [], ◌∷◌, ◌++◌, Option,
  none, some, if◌then◌else◌, ltb, leb, ◌==◌,
}
use myg3log.Base.Int.{ℤ, pos, negsuc, leb_ℤ, ltb_ℤ, eqb_ℤ}
use myg3log.Base.Text.{Text, codes, equal_text}
use myg3log.Base.Decimal.{int_to_string}

-- `std::tolower` of a byte, in the locale that a program starts in.
unfoldable pub to_lower_byte : ℕ → ℕ
to_lower_byte c = if leb 65 c && leb c 90 then c + 32 else c

-- `ToLower(str)`.
unfoldable pub to_lower : Text → Text
unfolding to_lower_byte
to_lower [] = []
to_lower (c ∷ s) = to_lower_byte c ∷ to_lower s

-- `AskForAsyncDeath()`: the answer, what was written, and the lines left.
unfoldable pub ask_for_async_death : List Text → Option (Bool × Text × List Text)
unfolding to_lower
ask_for_async_death [] = none
ask_for_async_death (line ∷ lines) =
    let question = codes "Do you want to run the test in a separate thread? [yes/no]\n" in
    let option = to_lower line in
    let invalid = codes "\nInvalid value: [" ++ option ++ codes "]\n\n\n" in
    let more : Option (Bool × Text × List Text) = elim (ask_for_async_death lines) [
      | none ↦ none
      | some (answer, out, rest) ↦ some (answer, question ++ invalid ++ out, rest)
    ] in
    if not (equal_text (codes "yes") option) && not (equal_text (codes "no") option)
    then more
    else some (equal_text (codes "yes") option, question, lines)

-- `std::isspace` in that locale.
abbrev pub is_space_byte : ℕ → Bool
is_space_byte c = c == 32 || leb 9 c && leb c 13

abbrev pub is_digit : ℕ → Bool
is_digit c = leb b'0' c && leb c b'9'

-- The number of the digits that stand at the start of a text, behind those that were read; `none`
-- if there is no digit.
unfoldable pub read_digits : Option ℕ → Text → Option ℕ
read_digits read [] = read
read_digits read (c ∷ s) =
    let value : ℕ = elim read [ none ↦ 0 | some n ↦ n ] in
    let more = read_digits (some (value * 10 + (c - b'0'))) s in if is_digit c then more else read

-- The value of the sign and the digits, if it is an `int` of 32 bits.
unfoldable pub read_signed : Text → Option ℤ
unfolding read_digits
read_signed [] = none
read_signed (c ∷ s) =
    let negative : Option ℤ = elim (read_digits none s) [
      | none ↦ none
      | some n ↦ elim n [
        | zero ↦ some (pos 0)
        | suc k ↦ if ltb k 2147483648 then some (negsuc k) else none
      ]
    ] in
    let from : Text → Option ℤ = λ t. elim (read_digits none t) [
      | none ↦ none
      | some n ↦ if ltb n 2147483648 then some (pos n) else none
    ] in
    if c == b'-' then negative else if c == b'+' then from s else from (c ∷ s)

-- `std::stoi(option)` of the standard library; `none` stands for both of its exceptions.
unfoldable pub stoi : Text → Option ℤ
unfolding read_signed
stoi [] = none
stoi (c ∷ s) = let rest = stoi s in if is_space_byte c then rest else read_signed (c ∷ s)

-- `ChoiceOfFatalExit()`: the choice, the lines that were refused, and the lines left.
unfoldable pub choice_of_fatal_exit : List Text → Option (ℤ × List Text × List Text)
unfolding stoi
choice_of_fatal_exit [] = none
choice_of_fatal_exit (option ∷ lines) =
    let more : Option (ℤ × List Text × List Text) = elim (choice_of_fatal_exit lines) [
      | none ↦ none
      | some (choice, refused, rest) ↦ some (choice, option ∷ refused, rest)
    ] in
    elim (stoi option) [
      | none ↦ more
      | some choice ↦
          if leb_ℤ choice (pos 0) || ltb_ℤ (pos 14) choice then more else some (choice, [], lines)
    ]

-- The functions that `ExecuteDeathFunction` chooses from.
pub data DeathFunction : Type 0 where
  no_exit_function raise_sigabrt raise_sigfpe raise_sigsegv raise_sigill raise_sigterm :
      DeathFunction
  division_by_zero illegal_printf out_of_bounds_array_indexing access_violation : DeathFunction
  raise_sigabrt_and_access_violation throw failed_check : DeathFunction
  access_violation_x10000 seg_fault_attempt_x10000 : DeathFunction

-- The cases of the `switch` over the choice.
abbrev pub cases : List (ℕ × DeathFunction)
cases =
    (1, DeathFunction.raise_sigabrt)
    ∷ (2, DeathFunction.raise_sigfpe)
    ∷ (3, DeathFunction.raise_sigsegv)
    ∷ (4, DeathFunction.raise_sigill)
    ∷ (5, DeathFunction.raise_sigterm)
    ∷ (6, DeathFunction.division_by_zero)
    ∷ (7, DeathFunction.illegal_printf)
    ∷ (8, DeathFunction.out_of_bounds_array_indexing)
    ∷ (9, DeathFunction.access_violation)
    ∷ (10, DeathFunction.raise_sigabrt_and_access_violation)
    ∷ (11, DeathFunction.throw)
    ∷ (12, DeathFunction.failed_check)
    ∷ (13, DeathFunction.access_violation_x10000)
    ∷ (14, DeathFunction.seg_fault_attempt_x10000)
    ∷ []

abbrev pub case_of : ℕ → List (ℕ × DeathFunction) → DeathFunction
case_of choice [] = DeathFunction.no_exit_function
case_of choice ((label, f) ∷ rest) = if label == choice then f else case_of choice rest

unfoldable pub exit_function : ℤ → DeathFunction
exit_function (pos choice) = case_of choice cases
exit_function (negsuc n) = DeathFunction.no_exit_function

-- What `ExecuteDeathFunction` does: the functions that it calls, each on a thread of its own or not,
-- and what it writes if they return.
pub record Execution : Type 0 where
  pub calls : List (Bool × DeathFunction)
  pub g_should_be_zero : ℤ
  pub unexpected : Text

-- `ExecuteDeathFunction(runInNewThread, fatalChoice)`.
unfoldable pub execute_death_function : Bool → ℤ → ℤ → Execution
unfolding exit_function
execute_death_function run_in_new_thread fatal_choice g_should_be_zero = record {
  calls =
      (if eqb_ℤ fatal_choice (pos 6) then (false, DeathFunction.division_by_zero) ∷ [] else [])
      ++ (run_in_new_thread, exit_function fatal_choice) ∷ [];
  g_should_be_zero = if eqb_ℤ fatal_choice (pos 6) then pos 0 else g_should_be_zero;
  unexpected =
      codes "Expected to exit by FATAL event. That did not happen (printf choice in Windows?)."
      ++ codes "Choice was: "
      ++ int_to_string fatal_choice
      ++ codes ", async?: "
      ++ (if run_in_new_thread then codes "1" else codes "0")
      ++ codes "\n\n***** TEST WILL RUN AGAIN *****\n\n";
}

-- `ChooseFatalExit()`.
unfoldable pub choose_fatal_exit : List Text → ℤ → Option (Execution × List Text)
unfolding ask_for_async_death choice_of_fatal_exit execute_death_function
choose_fatal_exit lines g_should_be_zero = elim (ask_for_async_death lines) [
  | none ↦ none
  | some (run_in_new_thread, out, lines1) ↦ elim (choice_of_fatal_exit lines1) [
    | none ↦ none
    | some (exit_choice, refused, lines2) ↦
        some (execute_death_function run_in_new_thread exit_choice g_should_be_zero, lines2)
  ]
]
