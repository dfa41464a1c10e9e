-- ===== src/FileName.antt =====
-- src/filesinkhelper.ipp: prefixes, paths and names of log files.
pub mod Prefix
pub mod FilePath
pub mod Tests
use myg3log.Base.{
  ℕ, zero, suc, ◌+◌, ◌-◌, Bool, true, false, ◌||◌, List, [], ◌∷◌, ◌++◌, Option, none, some,
  if◌then◌else◌, ◌==◌, leb, ◌&&◌, length, take, map,
}
use myg3log.Base.Text.{Text, codes, find_first_of, after_last, remove, contains}
use myg3log.Levels.{Level}
use myg3log.Time.{Platform, localtime_formatted}

-- The bytes that a prefix may not have: `/,|<>:#$%{}[]'"^!?+* `.
unfoldable pub illegal_characters : Text
unfolding codes
illegal_characters = codes "/,|<>:#$%{}[]'" ++ (b'"' ∷ codes "^!?+* ")

-- `isValidFilename`: the verdict, and what goes to the standard error.
unfoldable pub is_valid_filename : Text → Bool × Text
is_valid_filename prefix = elim (find_first_of illegal_characters prefix) [
  | some c ↦ (
    false,
    codes "Illegal character ["
        ++ c ∷ []
        ++ codes "] in logname prefix: "
        ++ codes "["
        ++ prefix
        ++ codes "]\n",
  )
  | none ↦
      if length prefix == 0
      then (false, codes "Empty filename prefix is not allowed\n")
      else (true, [])
]

-- `isspace` of the C locale.
abbrev pub is_space : ℕ → Bool
is_space c = (c == b' ') || (leb 9 c && leb c 13)

-- What `prefixSanityFix` takes out behind the last slash.
unfoldable pub strip_prefix : Text → Text
strip_prefix prefix =
    remove (λ c. c == b':')
      (remove (λ c. c == b'.')
        (remove (λ c. c == b'\\')
          (remove (λ c. c == b'/') (remove is_space (after_last (b'/' ∷ b'\\' ∷ []) prefix)))))

-- `prefixSanityFix(prefix)`.
unfoldable pub prefix_sanity_fix : Text → Text
prefix_sanity_fix prefix =
    let fixed = strip_prefix prefix in if (is_valid_filename fixed).0 then fixed else []

-- `contains_end(in)`: does the text end in a slash or a space?
unfoldable pub contains_end : Text → Bool
contains_end [] = false
contains_end (c ∷ []) = (c == b'/') || (c == b' ')
contains_end (c ∷ d ∷ s) = contains_end (d ∷ s)

-- `while (contains_end(path)) path.erase(path.size() - 1)`; `none` means that the fuel ran out.
unfoldable pub trim_loop : ℕ → Text → Option Text
trim_loop zero path = none
trim_loop (suc fuel) path = elim (contains_end path) [
  | true ↦ trim_loop fuel (take (length path - 1) path)
  | false ↦ some path
]

-- The loop with one unit of fuel more than there are bytes, which suffices (FileName.FilePath).
unfoldable pub trim : Text → Text
unfolding trim_loop
trim path = elim (trim_loop (suc (length path)) path) [ none ↦ path | some p ↦ p ]

-- `std::replace(path.begin(), path.end(), '\\', '/')`.
unfoldable pub unify : Text → Text
unify path = map (λ c. if c == b'\\' then b'/' else c) path

-- `pathSanityFix(path, file_name)`.
unfoldable pub path_sanity_fix : Text → Text → Text
path_sanity_fix path file_name =
    let trimmed = trim (unify path) in
    (if length trimmed == 0 then trimmed else trimmed ++ b'/' ∷ []) ++ file_name

-- `GetHostName()`, by the node name that `uname` gives if it succeeds.
unfoldable pub get_host_name : Option Text → Text
get_host_name none = []
get_host_name (some nodename) = nodename

-- `GetUserName()`, by the variable USER.
unfoldable pub get_user_name : Option Text → Text
get_user_name none = codes "invalid-user"
get_user_name (some user) = user

-- The host and the user that the process runs as.
pub record Host : Type 0 where
  pub nodename : Option Text
  pub user : Option Text

-- `file_name_time_formatted`.
unfoldable pub file_name_time_formatted : Text
file_name_time_formatted = codes "%Y%m%d-%H%M%S"

-- `createLinkName(verified_prefix, level)`.
unfoldable pub create_link_name : Text → Level → Text
create_link_name verified_prefix level = verified_prefix ++ codes "." ++ level.text

module _ (platform : Platform) where
  -- `header(headerFormat)` at the time `now`.
  unfoldable pub header : ℕ → Text → Text
  header now header_format =
      codes "\t\tg3log created log at: "
      ++ localtime_formatted platform now (codes "%a %b %d %H:%M:%S %Y")
      ++ codes "\n"
      ++ header_format

  -- `createLogFileName(verified_prefix, level, logger_id)` at the time `now`.
  unfoldable pub create_log_file_name : Host → ℕ → Text → Level → Text → Text
  create_log_file_name host now verified_prefix level logger_id =
      verified_prefix
      ++ codes "."
      ++ get_host_name host.nodename
      ++ codes "."
      ++ get_user_name host.user
      ++ codes ".log."
      ++ level.text
      ++ codes "."
      ++ localtime_formatted platform now file_name_time_formatted
