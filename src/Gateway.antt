-- ===== src/Gateway.antt =====
-- crates/guardian-mcp-gateway: the mediation of tool calls, and the MCP servers in front of it and
-- behind it.
pub mod Call
pub mod Paths
pub mod State
pub mod Handle
pub mod Mcp
pub mod Upstream
