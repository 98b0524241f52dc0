-- ===== src/Dispatch.antt =====
-- logging.cc: to which log files and streams a message goes.
pub mod Outputs
pub mod Destinations
pub mod Streams
mod Examples
