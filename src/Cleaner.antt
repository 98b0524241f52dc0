-- ===== src/Cleaner.antt =====
-- internal/log_cleaner.cc: the removal of overdue log files.
pub mod Logs
pub mod Names
pub mod Additions
pub mod Overdue
pub mod Rounds
mod Examples
