-- ===== src/Magnum.antt =====
-- The Magnum inverter's bus: the library under src/magnum.
pub mod Tables
pub mod Packet
pub mod Names
pub mod Framer
pub mod Units
pub mod State
pub mod Decode
mod Tests
