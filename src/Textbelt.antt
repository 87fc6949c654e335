-- ===== src/Textbelt.antt =====
-- Text messages by Textbelt: the library under src/textbelt.
pub mod Phone
pub mod Form
pub mod Message
mod Tests
