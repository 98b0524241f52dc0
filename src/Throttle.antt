-- ===== src/Throttle.antt =====
-- experimental/attributes.cc: the rate limits that count occurrences.
pub mod Counts
pub mod EveryNth
pub mod FirstOnes
pub mod Period
pub mod Spacing
pub mod Examples
