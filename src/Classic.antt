-- ===== src/Classic.antt =====
-- The Classic charge controller: the library under src/classic.
pub mod Codec
mod Tests
