-- ===== src/Crash.antt =====
-- src/crashhandler_unix.cpp and src/g3log/crashhandler.hpp: signals and what is done about them.
pub mod Reason
pub mod Signals
pub mod Stack
