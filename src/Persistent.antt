-- ===== src/Persistent.antt =====
-- client/commands/v2/persistent.py: the language server in front of the Pyre server.
pub mod Server
pub mod Diagnostics
pub mod Requests
pub mod Initialize
