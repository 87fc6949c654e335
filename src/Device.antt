-- ===== src/Device.antt =====
-- The device manager, src/device/device.c, with what it calls of src/plugin/loader.c and
-- src/config/config.c.
pub mod Plugin
pub mod Spec
pub mod Table
pub mod Add
pub mod Settings
pub mod Apply
pub mod Distinct
pub mod Reach
mod Tests
