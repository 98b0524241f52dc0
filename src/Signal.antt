-- ===== src/Signal.antt =====
-- signalhandler.cc: the formatter of failure messages.
pub mod Formatter
pub mod Digits
pub mod Padding
mod Examples
