-- ===== src/Levenshtein.antt =====
-- internal/levenshtein.cc: the distance of two texts and the closest of several.
pub mod Distance
pub mod Scripts
pub mod Rows
pub mod Closest
mod Examples
