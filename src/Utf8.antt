-- ===== src/Utf8.antt =====
-- ng-log/internal/utf8_encoder.h
pub mod Encoder
pub mod RoundTrip
pub mod Surrogates
pub mod Examples
