-- ===== src/TestHelpers.antt =====
-- src/test_unit/testing_helpers.cpp and testing_helpers.h of the repository: the fatal handler that
-- the unit tests set, the search in the text of a log, and the clean-up of log files.
pub mod MockFatal
pub mod Content
pub mod Cleaner
pub mod Restore
pub mod Retrieve
pub mod Tests
use myg3log.Base.{
  ℕ, suc, ◌+◌, Bool, true, false, List, [], ◌∷◌, ◌++◌, Option, none, some, if◌then◌else◌, ◌==◌,
  ◌&&◌, length, ◌%◌, ◌^◌,
}
use myg3log.Base.Int.{ℤ, negsuc}
use myg3log.Base.Text.{Text, c_str, equal_text}
use myg3log.Message.{FatalMessage}
use myg3log.LogWorker.{default_text}
use myg3log.Logger.{Logger, Build, push_message_to_logger}

-- `g_mockFatal_message`, `g_mockFatal_signal` and `g_mockFatalWasCalled`.
pub record Mock : Type 0 where
  pub message : Text
  pub signal : ℤ
  pub was_called : Bool

-- Their first values, and what `clearMockFatal()` sets.
unfoldable pub clear_mock_fatal : Mock
clear_mock_fatal = record { message = []; signal = negsuc 0; was_called = false }

-- `mockFatalCall(fatal_message)`, which releases the message to the logger as one that is not fatal.
unfoldable pub mock_fatal_call :
    {R : Type 0} → Build → FatalMessage → Mock × Logger R → Mock × Logger R
unfolding default_text push_message_to_logger
mock_fatal_call build fatal_message (mock, s) = (
  record {
    message = default_text build.env fatal_message.log_message;
    signal = fatal_message.signal_id;
    was_called = true;
  },
  push_message_to_logger fatal_message.log_message s,
)

-- Does the text begin with the other?
unfoldable pub starts_with : Text → Text → Bool
starts_with [] text = true
starts_with (c ∷ s) [] = false
starts_with (c ∷ s) (d ∷ text) = c == d && starts_with s text

-- `content.find(msg_to_find)`: the first place, `none` for `npos`.
unfoldable pub find_text : Text → Text → Option ℕ
unfolding starts_with
find_text msg [] = if starts_with msg [] then some 0 else none
find_text msg (d ∷ text) =
    let behind = find_text msg text in
    if starts_with msg (d ∷ text)
    then some 0
    else elim behind [ none ↦ none | some k ↦ some (suc k) ]

-- `verifyContent(total_text, msg_to_find)`.
unfoldable pub verify_content : (total_text msg_to_find : Text) → Bool
unfolding find_text
verify_content total_text msg_to_find = elim (find_text msg_to_find total_text) [
  | none ↦ false
  | some k ↦ true
]

-- The files of the system: their paths and what they hold.
abbrev pub Files : Type 0
Files = List (Text × Text)

-- `readFileToText(filename)`: a file that cannot be opened reads as the empty text.
unfoldable pub read_file_to_text : Text → Files → Text
read_file_to_text filename [] = []
read_file_to_text filename ((path, text) ∷ files) =
    if equal_text path (c_str filename) then text else read_file_to_text filename files

-- `removeFile(path_to_file)`: whether there was such a file, and the files left.
unfoldable pub remove_file : Text → Files → Bool × Files
remove_file path_to_file [] = (false, [])
remove_file path_to_file ((path, text) ∷ files) =
    let (removed, left) = remove_file path_to_file files in
    if equal_text path (c_str path_to_file) then (true, files) else (removed, (path, text) ∷ left)

-- `std::find(begin, end, path)` is not the end.
unfoldable pub is_listed : Text → List Text → Bool
is_listed path [] = false
is_listed path (log ∷ logs) = if equal_text log path then true else is_listed path logs

-- `LogFileCleaner::addLogToClean(path_to_log)` on `logs_to_clean_`.
unfoldable pub add_log_to_clean : Text → List Text → List Text
unfolding is_listed
add_log_to_clean path_to_log logs =
    if is_listed (c_str path_to_log) logs then logs else logs ++ path_to_log ∷ []

-- `LogFileCleaner::size()`.
unfoldable pub size : List Text → ℕ
size logs = length logs % 2 ^ 64

-- `~LogFileCleaner()`: the files whose removal failed, which are reported, and the files left.
unfoldable pub clean : List Text → Files → List Text × Files
unfolding remove_file
clean [] files = ([], files)
clean (log ∷ logs) files =
    let (removed, left) = remove_file log files in
    let (failures, rest) = clean logs left in (if removed then failures else log ∷ failures, rest)
