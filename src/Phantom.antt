-- ===== src/Phantom.antt =====
-- The built-in phantom driver, src/phantom/phantom.c, which shows the average of other modules: its
-- settings.
pub mod Settings
mod Tests
