-- ===== src/Xd.antt =====
-- The Tianpower (TBD) battery protocol: src/xd/bms_proto.c.
pub mod Frame
pub mod Txrx
pub mod Realtime
pub mod Flags
mod Tests
