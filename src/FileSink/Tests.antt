-- ===== src/FileSink/Tests.antt =====
-- Runs of the file sink.
use myg3log.Base.{ℕ, ◌≡◌, ◌≢◌, refl, false, List, [], ◌∷◌, ◌++◌, some, if◌then◌else◌}
use myg3log.Base.Text.{Text, codes, find_first_of, after_last}
use myg3log.Levels.{info}
use myg3log.FileName.{
  prefix_sanity_fix, path_sanity_fix, strip_prefix, is_valid_filename, illegal_characters,
}
use myg3log.Message.{LogMessage}
use myg3log.FileSink.{Stream, FileSink, construct, change_log_file, arrival_note, ◌>>=◌}
use myg3log.FileSink.Writing.{write_all, write_all_lem, after_writing, all_logged}
use myg3log.FileSink.Opening.{construct-Opened, Opened, log_name}
use myg3log.FileSink.Changing.{
  change_log_file_lem, change-write_all, prospect, changed, unchanged, written,
}
use myg3log.Samples.{environment, file_sink, message}

abbrev directory : Text
directory = b'd' ∷ []

abbrev prefix : Text
prefix = b'p' ∷ []

abbrev log_stream : Stream
log_stream = record { path = b'l' ∷ []; written = [] }

abbrev started_sink : FileSink
started_sink = record file_sink { first_entry = false }

abbrev entries : List (ℕ × LogMessage)
entries = (1, message) ∷ (2, message) ∷ []

write_all_lem_example :
    write_all environment entries file_sink
    ≡ some (after_writing environment file_sink log_stream entries)
write_all_lem_example = write_all_lem environment entries file_sink log_stream refl

prefix_kept : prefix_sanity_fix prefix ≢ []
unfolding prefix_sanity_fix strip_prefix is_valid_filename illegal_characters find_first_of
    after_last codes
prefix_kept e = cc

construct-Opened_example :
    Opened environment 1 [] prefix directory info []
      (if environment.openable
          (path_sanity_fix directory (log_name environment 1 [] prefix directory info []))
        then path_sanity_fix directory (log_name environment 1 [] prefix directory info [])
        else codes "./" ++ log_name environment 1 [] prefix directory info [])
      (construct environment 1 [] prefix directory info [])
construct-Opened_example = construct-Opened environment 1 [] prefix directory info [] prefix_kept

change_log_file_lem_example :
    change_log_file environment 1 1 1 directory [] info file_sink
    ≡ some (
        if environment.openable
          (prospect environment 1 1 1 directory [] info file_sink log_stream refl)
        then changed environment 1 1 1 directory [] info file_sink log_stream refl
        else unchanged environment 1 1 1 directory [] info file_sink log_stream refl)
change_log_file_lem_example =
    change_log_file_lem environment 1 1 1 directory [] info file_sink log_stream refl

change-write_all_example :
    ((change_log_file environment 1 1 1 directory [] info started_sink)
      >>= (λ c. write_all environment entries c.sink >>= written))
    ≡ some (
        arrival_note environment 1 started_sink.log_file_with_path
        ++ all_logged environment started_sink.log_details_func started_sink.min_log_level entries)
change-write_all_example =
    change-write_all environment 1 1 1 directory [] info started_sink log_stream refl entries refl
      refl
