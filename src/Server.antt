-- ===== src/Server.antt =====
-- The MCP server, crates/tinymcp/src/server: what it declares, its sessions, the validators of its
-- tools' arguments, and its protocol.
pub mod Declarations
pub mod Protocol
pub mod Args
pub mod Session
