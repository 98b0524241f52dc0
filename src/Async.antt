-- ===== src/Async.antt =====
-- experimental/async.cc: the logging thread.
pub mod LogThread
pub mod Order
pub mod Waiting
pub mod Examples
