-- ===== src/FileName/Tests.antt =====
-- Runs of the names of log files.
use myg3log.Base.{◌⊎◌, ◌≡◌, ◌≢◌, ◌⊎◌, true, [], ◌∷◌, ◌++◌, if◌then◌else◌, ◌==◌, length, All}
use myg3log.Base.Text.{Text}
use myg3log.FileName.{is_valid_filename, prefix_sanity_fix, path_sanity_fix}
use myg3log.FileName.Prefix.{prefix_sanity_fix-IsValid, IsStripped}
use myg3log.FileName.FilePath.{Slashed, IsClosed, path_sanity_fix_lem}

abbrev prefix : Text
prefix = b'a' ∷ b'/' ∷ b'b' ∷ b' ' ∷ b'.' ∷ b'c' ∷ []

abbrev directory : Text
directory = b'd' ∷ b'\\' ∷ b'e' ∷ b'/' ∷ b' ' ∷ []

prefix_sanity_fix-IsValid_example :
    (prefix_sanity_fix prefix ≡ [])
    ⊎ (((is_valid_filename (prefix_sanity_fix prefix)).0 ≡ true)
        × IsStripped (prefix_sanity_fix prefix))
prefix_sanity_fix-IsValid_example = prefix_sanity_fix-IsValid prefix

path_sanity_fix_lem_example :
    (dir : Text) × (ends : Text) × Slashed directory (dir ++ ends)
    × All (λ c. (c ≡ b'/') ⊎ (c ≡ b' ')) ends
    × IsClosed dir
    × All (λ c. c ≢ b'\\') dir
    × (path_sanity_fix directory prefix
        ≡ (if length dir == 0 then [] else dir ++ b'/' ∷ []) ++ prefix)
path_sanity_fix_lem_example = path_sanity_fix_lem directory prefix
