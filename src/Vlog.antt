-- ===== src/Vlog.antt =====
-- vlog_is_on.cc
pub mod Glob
pub mod Matches
pub mod Modules
pub mod Sites
pub mod Overrides
pub mod Redirects
pub mod Caches
pub mod Entries
pub mod Examples
