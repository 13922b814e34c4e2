-- ===== src/Transport.antt =====
-- What the transports to a remote server share, crates/tinymcp/src/transport.
pub mod Sse
pub mod Wire
