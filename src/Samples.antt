-- ===== src/Samples.antt =====
-- Small inputs that the tests of several modules share.
use myg3log.Base.{true, false, List, [], ◌∷◌, ◌++◌, none, some, map}
use myg3log.Base.Int.{pos}
use myg3log.Levels.{info, fatal, log_level_defaults}
use myg3log.Time.{Platform}
use myg3log.Crash.Reason.{sigsegv, sigabrt}
use myg3log.Crash.Signals.{Signals, Action}
use myg3log.Message.{LogMessage, FatalMessage}
use myg3log.FileSink.{Environment, FileSink}
use myg3log.Sink.Delivery.{LiveSink, live}
use myg3log.LogWorker.{Worker}
use myg3log.Logger.{Control, Hook, Logger, Build, Capture}

abbrev pub platform : Platform
platform = record {
  localtime_r = λ t. record {
    tm_sec = t;
    tm_min = 0;
    tm_hour = 0;
    tm_mday = 1;
    tm_mon = 0;
    tm_year = pos 70;
    tm_wday = 4;
    tm_yday = 0;
    tm_isdst = pos 0;
  };
  strftime = λ size format tm. format;
  hrs_now = 5;
  sys_now = 7;
}

abbrev pub environment : Environment
environment = record {
  platform = platform;
  show_thread = λ t. b't' ∷ [];
  host = record { nodename = some (b'n' ∷ []); user = none };
  openable = λ path. true;
}

abbrev pub message : LogMessage
message = record {
  details = λ e. b'd' ∷ [];
  entry = record {
    timestamp = 9;
    call_thread_id = 1;
    file = b'f' ∷ [];
    file_path = b'/' ∷ b'f' ∷ [];
    line = pos 3;
    function = b'g' ∷ [];
    level = info;
    expression = [];
    message = b'm' ∷ [];
  };
}

abbrev pub fatal_sample : FatalMessage
fatal_sample = record {
  log_message = record message { entry = record (message.entry) { level = fatal } };
  signal_id = sigabrt;
}

-- A real sink keeps the messages that it logs.
abbrev pub Kept : Type 0
Kept = List LogMessage

abbrev pub sink : LiveSink Kept
sink = record { real = []; pending = []; log_call = λ m r. r ++ m ∷ []; destructor = λ r. r }

abbrev pub worker : Worker Kept
worker = record {
  sinks = map live (sink ∷ []);
  stderr = [];
  closed = [];
  logging = true;
  exited = none;
}

abbrev pub file_sink : FileSink
file_sink = record {
  log_details_func = λ e. b'd' ∷ [];
  log_file_with_path = b'l' ∷ [];
  log_prefix_backup = b'p' ∷ [];
  link_file_with_path = b'k' ∷ [];
  outptr = some (record { path = b'l' ∷ []; written = [] });
  log_header = b'h' ∷ [];
  first_entry = true;
  min_log_level = info;
}

abbrev pub signals : Signals
signals = record {
  g_signals = (sigsegv, b's' ∷ []) ∷ [];
  saved = λ sig. none;
  system = λ sig. Action.default;
  first_exit = 0;
}

abbrev pub build : Build
build = record {
  env = environment;
  accepts = λ sig. true;
  no_signal_handling = false;
  full_filename = false;
  dynamic_levels = true;
  this_file = b'c' ∷ [];
}

-- No worker is active and nothing has happened.
abbrev pub logger : Logger Kept
logger = record {
  logger_instance = none;
  workers = λ w. record { mq = []; done = false };
  first_uninitialized_msg = none;
  initialized = false;
  first_set = false;
  first_saved = false;
  hook = Hook.empty;
  recursive_counter = 0;
  fatal_handler = none;
  first_stack_trace = none;
  signals = signals;
  levels = log_level_defaults;
  stderr = [];
  control = Control.running;
}

abbrev pub active_logger : Logger Kept
active_logger = record logger { logger_instance = some 4; hook = Hook.does_nothing }

abbrev pub capture : Capture
capture = record {
  entry = b'e' ∷ [];
  file = b'f' ∷ [];
  line = pos 8;
  function = b'g' ∷ [];
  level = fatal;
  expression = [];
  fatal_signal = sigabrt;
  stack_trace = b't' ∷ [];
  now = 2;
  thread = 1;
}
