-- ===== src/Usb.antt =====
-- USB serial ports by their identity: src/usb.
pub mod Ring
pub mod Identity
pub mod Resolve
mod Tests
