-- ===== src/Jk.antt =====
-- The JK battery protocol over Bluetooth: src/jk/jk_proto.c and src/jk/jk_proto.h.
pub mod Frame
pub mod Command
pub mod Assembler
pub mod Decode
mod Tests
