-- ===== src/FileSink.antt =====
-- src/filesink.cpp and src/g3log/filesink.hpp: the default sink, which writes to a log file.
pub mod Writing
pub mod Opening
pub mod Changing
pub mod Tests
use myg3log.Base.{
  ℕ, ◌+◌, Bool, true, false, not, List, [], ◌∷◌, ◌++◌, Option, none, some, if◌then◌else◌, ◌==◌,
  length,
}
use myg3log.Base.Int.{ℤ, ltb_ℤ}
use myg3log.Base.Text.{Text, codes}
use myg3log.Levels.{Level}
use myg3log.Time.{Platform, localtime_formatted, date_formatted, time_formatted}
use myg3log.Message.{LogMessage, LogDetailsFunc, default_log_details, to_string}
use myg3log.FileName.{
  Host, prefix_sanity_fix, is_valid_filename, path_sanity_fix, header, create_log_file_name,
  create_link_name,
}

-- What the process runs in: the clocks and C library, the text of a thread's id, the host, and
-- the paths at which a file can be opened for writing.
pub record Environment : Type 0 where
  pub platform : Platform
  pub show_thread : ℕ → Text
  pub host : Host
  pub openable : Text → Bool

-- An open `std::ofstream`: its path, and what was written since it was truncated.
pub record Stream : Type 0 where
  pub path : Text
  pub written : Text

-- `class FileSink`; `outptr` is `none` where the pointer is null.
pub record FileSink : Type 0 where
  pub log_details_func : LogDetailsFunc
  pub log_file_with_path : Text
  pub log_prefix_backup : Text
  pub link_file_with_path : Text
  pub outptr : Option Stream
  pub log_header : Text
  pub first_entry : Bool
  pub min_log_level : Level

-- The calls of the file system that the constructor makes for its links.
pub data LinkCall : Type 0 where
  unlink : Text → LinkCall
  symlink : (target link : Text) → LinkCall

-- What the constructor leads to.
pub data Construction : Type 0 where
  aborted : Construction
  constructed : FileSink → List LinkCall → Construction

abbrev pub default_header : Text
default_header =
    codes
      "\t\tLOG format: [YYYY/MM/DD hh:mm:ss uuu* LEVEL FILE->FUNCTION:LINE] messagen\n\t\t(uuu*: microseconds fractions of the seconds value)\n\n"

-- A write through `filestream()`; `none` is the dereference of a null pointer.
unfoldable pub write : Text → FileSink → Option FileSink
write text s = elim s.outptr [
  | none ↦ none
  | some out ↦ some (record s { outptr = some (record out { written = out.written ++ text }) })
]

-- A sink, the path that a call returned, and the streams that it closed.
pub record Change : Type 0 where
  pub sink : FileSink
  pub result : Text
  pub closed : List Stream

infixl 5 ◌>>=◌
abbrev pub ◌>>=◌ {ℓ κ} : {A : Type ℓ} {B : Type κ} → Option A → (A → Option B) → Option B
none >>= f = none
some a >>= f = f a

module _ (env : Environment) where
  -- `openLogFile` and `createLogFile(file_with_full_path)`.
  unfoldable pub create_log_file : Text → Option Stream
  create_log_file path =
      if env.openable path then some (record { path = path; written = [] }) else none

  -- The links that the constructor makes: the one beside the log file, and the one in the
  -- directory that the flag `log_link` names.
  unfoldable pub make_links : (log_directory link_name target log_link : Text) → List LinkCall
  make_links log_directory link_name target log_link =
      let beside = path_sanity_fix log_directory link_name in
      let extra = path_sanity_fix log_link link_name in
      (if length beside == 0 then [] else unlink beside ∷ symlink target beside ∷ [])
      ++ (if length log_link == 0 then [] else unlink extra ∷ symlink target extra ∷ [])

  -- The constructor, at the time `now` and with the flag `log_link`.
  unfoldable pub construct :
      (now : ℕ) (log_link log_prefix log_directory : Text) (level : Level) (logger_id : Text)
      → Construction
  construct now log_link log_prefix log_directory level logger_id =
      let prefix = prefix_sanity_fix log_prefix in
      let file_name = create_log_file_name env.platform env.host now prefix level logger_id in
      let path = path_sanity_fix log_directory file_name in
      let link_name = create_link_name prefix level in
      let fallback = codes "./" ++ file_name in
      let opened = create_log_file path in
      let sink : FileSink = record {
        log_details_func = default_log_details env.platform env.show_thread;
        log_file_with_path = elim opened [ none ↦ fallback | some out ↦ path ];
        log_prefix_backup = prefix;
        link_file_with_path = path_sanity_fix log_directory link_name;
        outptr = elim opened [ none ↦ create_log_file fallback | some out ↦ some out ];
        log_header = default_header;
        first_entry = true;
        min_log_level = level;
      } in
      if (is_valid_filename prefix).0
      then constructed sink (make_links log_directory link_name path log_link)
      else aborted

  -- `addLogFileHeader()` at the time `now`.
  unfoldable pub add_log_file_header : ℕ → FileSink → Option FileSink
  unfolding write
  add_log_file_header now s = write (header env.platform now s.log_header) s

  -- The first part of `fileWrite`: the header, before the first entry.
  unfoldable pub begin_entry : ℕ → FileSink → Option FileSink
  unfolding add_log_file_header
  begin_entry now s =
      if s.first_entry
      then add_log_file_header now s >>= (λ s'. some (record s' { first_entry = false }))
      else some s

  -- `fileWrite(message)`.
  unfoldable pub file_write : ℕ → LogMessage → FileSink → Option FileSink
  unfolding begin_entry write
  file_write now message s = do
    s' ← begin_entry now s
    if ltb_ℤ message.level.value s'.min_log_level.value
        then some s'
        else write (to_string env.platform env.show_thread s'.log_details_func message).1 s'

  -- The text of the time in the notes of `changeLogFile`.
  abbrev now_formatted : ℕ → Text
  now_formatted now =
      localtime_formatted env.platform now (date_formatted ++ codes " " ++ time_formatted)

  abbrev pub failure_note : ℕ → Text → Text
  failure_note now prospect =
      codes "\n"
      ++ now_formatted now
      ++ codes " Unable to change log file. Illegal filename or busy? Unsuccessful log name was: "
      ++ prospect

  abbrev pub leaving_note : ℕ → Text → Text → Text
  leaving_note now old prospect =
      now_formatted now
      ++ codes "\n\tChanging log file from : "
      ++ old
      ++ codes "\n\tto new location: "
      ++ prospect
      ++ codes "\n"

  abbrev pub arrival_note : ℕ → Text → Text
  arrival_note now old =
      now_formatted now
      ++ codes "\n\tNew log file. The previous log file was at: "
      ++ old
      ++ codes "\n"

  -- The path that `changeLogFile` tries: the directory is taken as it is.
  unfoldable pub prospect_log : ℕ → Text → Text → Level → FileSink → Text
  prospect_log now directory logger_id level s =
      directory
      ++ create_log_file_name env.platform env.host now s.log_prefix_backup level logger_id

  -- `changeLogFile(directory, logger_id, level)`; the clock is read for the notes, for the name
  -- and for the header.
  unfoldable pub change_log_file :
      (now now_name now_header : ℕ) (directory logger_id : Text) (level : Level)
      → FileSink
      → Option Change
  unfolding create_log_file add_log_file_header write
  change_log_file now now_name now_header directory logger_id level s =
      let prospect = prospect_log now_name directory logger_id level s in
      elim (create_log_file prospect) [
        | none ↦
            write (failure_note now prospect) s
            >>= (λ s'. some (record { sink = s'; result = []; closed = [] }))
        | some log_stream ↦ add_log_file_header now_header s >>= (λ s1.
            write (leaving_note now s.log_file_with_path prospect) s1 >>= (λ s2.
              write (arrival_note now s.log_file_with_path)
                (record s2 { log_file_with_path = prospect; outptr = some log_stream })
              >>= (λ s3. some (record {
                sink = s3;
                result = prospect;
                closed = elim s2.outptr [ none ↦ [] | some out ↦ out ∷ [] ];
              }))))
      ]

  -- The destructor at the time `now`: a last line in the file, and what goes to the standard error.
  unfoldable pub destroy : ℕ → FileSink → Option (FileSink × Text)
  unfolding write
  destroy now s =
      let exit_msg =
        codes "g3log g3FileSink shutdown at: "
        ++ localtime_formatted env.platform now time_formatted
        ++ codes "\n" in
      write exit_msg s >>= (λ s'.
        some (s', exit_msg ++ codes "Log file at: [" ++ s.log_file_with_path ++ codes "]\n"))

-- `fileName()`.
unfoldable pub file_name : FileSink → Text
file_name s = s.log_file_with_path

-- `overrideLogDetails(func)` and `overrideLogHeader(change)`.
unfoldable pub override_log_details : LogDetailsFunc → FileSink → FileSink
override_log_details func s = record s { log_details_func = func }

unfoldable pub override_log_header : Text → FileSink → FileSink
override_log_header change s = record s { log_header = change }
