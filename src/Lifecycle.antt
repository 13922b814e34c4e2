-- ===== src/Lifecycle.antt =====
-- crates/tinymcp-bus/src/client_lifecycle: the pure half of a host's client. The children hold the
-- open and close machine of one directory (machine.rs) and the table of clients (table.rs).
pub mod Machine
pub mod Table
