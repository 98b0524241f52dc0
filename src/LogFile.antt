-- ===== src/LogFile.antt =====
-- logging.cc: `LogFileObject`, a log file of one severity.
pub mod File
pub mod Opening
pub mod Writing
pub mod Kept
pub mod Sound
pub mod Appends
pub mod Creation
pub mod Placement
mod Selected
pub mod Rollover
pub mod Attempts
mod Examples
