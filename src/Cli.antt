-- ===== src/Cli.antt =====
-- The command line client: src/cli.
pub mod Address
mod Tests
