-- ===== src/Mcp.antt =====
-- The MCP server (mcp.go, mcp_tools.go): JSON-RPC over lines of text, in the modern and the legacy
-- protocol.
pub mod Json
pub mod Tools
pub mod Listing
pub mod Server
pub mod Replies
pub mod Eras
pub mod Stateless
pub mod Grants
pub mod Access
pub mod Shapes
pub mod Verdicts
