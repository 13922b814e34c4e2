-- ===== src/AgentTools.antt =====
-- What the tools offered to a model share, crates/tinymcp/src/agent_tools.
pub mod Arguments
