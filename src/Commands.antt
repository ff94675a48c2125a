-- ===== src/Commands.antt =====
-- pkg/server/commands: the commands behind the server's handlers.
pub mod Write
pub mod Checked
pub mod Validated
