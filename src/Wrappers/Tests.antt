-- ===== src/Wrappers/Tests.antt =====
-- A message that is copied twice and then released.
use myg3log.Base.{ℕ, ◌+◌, ◌≡◌, List, [], ◌∷◌, some}
use myg3log.Wrappers.Ownership.{Move, Holders, owners, moves, all_overwritten, owners-moves}

abbrev one_wrapper : Holders ℕ
one_wrapper = record { wrappers = record { move_only = some 7 } ∷ []; released = [] }

abbrev sending : List Move
sending = Move.copies 0 ∷ Move.copies 1 ∷ Move.assigns 2 0 ∷ Move.releases 0 ∷ []

owners-moves_example :
    owners (moves sending one_wrapper) + all_overwritten sending one_wrapper ≡ owners one_wrapper
owners-moves_example = owners-moves sending one_wrapper
