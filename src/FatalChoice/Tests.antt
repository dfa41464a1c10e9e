-- ===== src/FatalChoice/Tests.antt =====
-- Runs of the dialogue.
use myg3log.Base.{◌≡◌, refl, arith, [], ◌∷◌, ◌++◌, some}
use myg3log.Base.Int.{pos}
use myg3log.Base.Text.{codes, equal_text}
use myg3log.Base.Decimal.{int_to_string}
use myg3log.FatalChoice.{Execution, to_lower, stoi, read_signed, read_digits, choose_fatal_exit}
use myg3log.FatalChoice.Dialogue.{Calls, choose_fatal_exit_lem}

reads_after_spaces : stoi (codes " \t+12abc") ≡ some (pos 12)
unfolding stoi read_signed read_digits codes
reads_after_spaces = refl

choose_fatal_exit_lem_example :
    (x : Execution) × (choose_fatal_exit
        ((b'?' ∷ []) ∷ []
          ++ codes "No" ∷ ((b'0' ∷ []) ∷ [] ++ (int_to_string (pos 6) ++ b'.' ∷ []) ∷ []))
        (pos 1)
      ≡ some (x, []))
    × Calls (equal_text (codes "yes") (to_lower (codes "No"))) 6 (pos 1) x
unfolding to_lower codes stoi read_signed read_digits
choose_fatal_exit_lem_example =
    choose_fatal_exit_lem ((b'?' ∷ []) ∷ []) (codes "No") ((b'0' ∷ []) ∷ []) 6 (b'.' ∷ []) []
      (pos 1) (refl, tt) refl (refl, tt) (omega arith) (omega arith) refl
