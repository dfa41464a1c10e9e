-- ===== src/Lib.antt =====
-- A model of g3log, a C++ library for logging and design by contract, and proofs about it.
--
-- A log macro opens a capture, which is written to like a stream. Its destructor hands the entry to
-- the logging system, which sends it to the active log worker. The worker's thread sends a copy to
-- every sink, and each sink has a thread of its own that gives the messages to a real sink, such as
-- the one that writes a log file. A fatal entry, from a macro, a broken contract or a signal, is the
-- last one: the worker flushes its sinks with it and ends the process by the signal.
--
-- The parts, the code and the files:
--   src/loglevels.cpp, src/g3log/loglevels.hpp: Levels. The map of dynamic levels is an association
--     list in the order of its keys; every call is a function on it.
--   src/time.cpp, src/g3log/time.hpp: Time. The loop over a format has fuel, one unit more than the
--     format has bytes; Time/Expansion relates it to the recursion with no fuel of Time/Reference.
--   src/crashhandler_unix.cpp: Crash. Crash/Signals has the handlers of the process as a function of
--     the signal's number, Crash/Reason the names, Crash/Stack the text of a backtrace.
--   src/logmessage.cpp, src/g3log/logmessage.hpp: Message, with Message/Build for the constructors
--     and the other members that change a message. The entry and the function that formats its
--     details are two records, as that function reads the entry.
--   src/filesinkhelper.ipp: FileName. The loop that trims a path has fuel, one unit more than the
--     path has bytes; FileName/FilePath shows what it leaves.
--   src/filesink.cpp, src/g3log/filesink.hpp: FileSink. An open file is its path and what was
--     written to it since; a null pointer that is written through gives none.
--   src/g3log/active.hpp, shared_queue.hpp, future.hpp: Active. A thread is the list of its jobs and
--     a function that performs one. Active/Order has every interleaving of senders and the thread.
--     The destructor has fuel for every job in the queue and its own.
--   src/g3log/sink.hpp, sinkhandle.hpp: Sink, for a real sink of any type. A real sink comes with the
--     call that it takes messages by and with its destructor.
--   src/logworker.cpp, src/g3log/logworker.hpp: LogWorker. The worker's state is changed by the jobs
--     that its interface sends.
--   src/g3log.cpp: Logger, with Logger/Save for saveMessage. The global variables are a record;
--     workers are numbered. The hook and the fatal handler of the user are parameters.
--   src/logcapture.cpp, src/g3log/logcapture.hpp: Capture; Capture/Crashes joins the crash handler,
--     the capture and the logging system.
--   src/g3log/sinks/custom_sink.cpp: CustomSink. The flags are a record, and the set-up adds sinks
--     to a worker of LogWorker and makes it the active one of Logger.
--   src/g3log/g3log.hpp: Macros. The static counters of a place are state. Macros/Statements has
--     whole statements, up to the destruction of the capture, and Macros/Debug those of debug builds.
--   src/logworker.cpp, src/g3log/active.hpp and src/g3log/sink.hpp at work together: Pipeline. Callers,
--     the thread of a worker and the threads of its sinks take steps in any order; Pipeline/Spec is
--     the account that they refine, Pipeline/Journal an interface of real sinks that keep a text,
--     and Pipeline/LogFile the file sink behind it.
--   src/g3log/moveoncopy.hpp, atomicbool.hpp: Wrappers. The other modules pass the values themselves.
--   test_unit/testing_helpers.cpp: TestHelpers, with the handler that the unit tests set instead of
--     the end of the process, and the logger that gives back what was logged.
--   example/main_fatal_choice.cpp: FatalChoice, the dialogue of the example on a list of lines; its
--     Functions are what the user can choose, as the steps of a thread, its LogFile follows
--     them to the log file, and its Threads has the threads that crash in any turns.
--
-- Base has the shared vocabulary: texts as lists of bytes, integers over the native numbers, decimal
-- notation, lists. Samples and the modules named Tests have concrete runs.
--
-- Parameters: localtime_r, strftime and the clocks, the text of a thread's id, uname and getenv, the
-- paths that can be opened, the numbers that sigaction accepts, backtrace_symbols and the demangler,
-- strsignal, the build options, and the callbacks of the user. An unsigned counter wraps at 2 ^ 64,
-- the size of a queue at 2 ^ 32; the int counters of the macros are taken not to overflow.
--
-- Not modelled: flags and their parsing, the Windows crash handler, the compatibility headers, the
-- function of the example that throws, the benchmarks and the other examples,
-- diagnostics of the file sink on the standard error, and time points before 1970.
pub mod Base
pub mod Levels
pub mod Time
pub mod Crash
pub mod Message
pub mod FileName
pub mod FileSink
pub mod Active
pub mod Sink
pub mod LogWorker
pub mod Logger
pub mod Capture
pub mod Macros
pub mod CustomSink
pub mod Wrappers
pub mod TestHelpers
pub mod FatalChoice
pub mod Pipeline
pub mod Samples
