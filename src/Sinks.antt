-- ===== src/Sinks.antt =====
-- logging.cc: the registered sinks, the calls of them, and their removal.
pub mod Registry
pub mod Sums
pub mod Calls
pub mod Counts
pub mod Removal
pub mod Progress
pub mod Deadlock
mod Examples
