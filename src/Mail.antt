-- ===== src/Mail.antt =====
-- logging.cc: how an argument of the mail command is quoted.
pub mod Quoting
pub mod Shell
pub mod Windows
mod Examples
