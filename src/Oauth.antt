-- ===== src/Oauth.antt =====
-- Signing in to a remote server, crates/tinymcp/src/registry/oauth.
pub mod Pending
pub mod Guard
