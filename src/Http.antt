-- ===== src/Http.antt =====
-- The connections of the daemon's HTTP server, src/http/http_pt.c.
pub mod Header
pub mod Conn
pub mod Fields
pub mod Recv
mod Tests
