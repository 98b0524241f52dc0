-- ===== src/Flags.antt =====
-- internal/flag_registry.cc: the values of flags, their registry and the command line.
pub mod Values
pub mod Digits
pub mod RoundTrip
pub mod Registry
pub mod Lookups
pub mod Negations
pub mod CommandLine
pub mod Effects
pub mod Repeats
pub mod Options
mod Examples
