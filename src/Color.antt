-- ===== src/Color.antt =====
-- internal/color_format.cc
pub mod Format
pub mod Complete
pub mod Size
pub mod Examples
