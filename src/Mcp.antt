-- ===== src/Mcp.antt =====
-- src/mcp.rs: the tools and the JSON-RPC dispatch of the MCP server.
pub mod Read
pub mod Tools
pub mod Json
pub mod Rpc
pub mod Request
pub mod Dispatch
